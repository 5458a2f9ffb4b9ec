-- ===== src/EResult/Text.antt =====
-- `_convert_eresult_to_string` of `SteamConnection` and of `SteamMultiplayerPeer`: the same switch
-- written twice. Each is given here by its first 64 cases, tried first, and the rest.
mod Connection
mod Peer
unfoldable pub use Connection.*
unfoldable pub use Peer.*
