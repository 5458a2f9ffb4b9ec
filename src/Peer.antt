-- ===== src/Peer.antt =====
-- `SteamMultiplayerPeer` (godaemon-cpp/steam_multiplayer_peer.h and .cpp): `State` to `Callback` are
-- its state and methods, the other modules what is proved of them.
pub mod State
pub mod Action
pub mod Settings
pub mod Registry
pub mod Packets
pub mod Lifecycle
pub mod Poll
pub mod Callback
pub mod Loopback
pub mod Refs
pub mod Ends
pub mod Invariant
pub mod Sending
pub mod Receiving
pub mod Polling
pub mod Closing
pub mod Status
pub mod Handshake
pub mod Meeting
pub mod Agreement
pub mod Accepted
pub mod Encounter
pub mod Queue
pub mod Lookups
pub mod Joining
pub mod Flags
pub mod Opening
pub mod Runs
pub mod Control
pub mod Phases
pub mod Diagram
pub mod Course
