-- ===== src/Lib.antt =====
-- A model of the GDExtension godaemon-cpp, which lets Godot's multiplayer run over Steam's networking
-- sockets, and of the scripts that carry remote procedure calls over it, and the theorems about them.
--
-- The program. A `SteamMultiplayerPeer` is one end of a session: a server on a listen socket, a client,
-- or a loopback client of a server in the same process. It keeps a `SteamConnection` for each remote
-- user, found by Steam id and, once the two ends have exchanged peer ids, by peer id. The engine calls
-- its methods (`_put_packet`, `_get_packet`, `_poll`, `_close`, …); Steam calls it back when the status
-- of a connection changes. A connection queues `SteamPacketPeer`s until Steam takes them. The options
-- for new connections are in a `SteamPeerConfig`. On top of a peer the GDScript under demo/ sends remote
-- procedure calls: `compress_rpc` writes a call on an object to a `PackedByteStream`, under the id that a
-- repository keeps for the object, and `decompress_rpc` reads it at the other end, where a server calls
-- the method or sends the call on to other peers.
--
-- The files, beside the sources under godaemon-cpp/:
--   Connection       steam_connection.cpp: sending with retries, flush, close and the setup packets
--   Packet           steam_packet_peer.cpp
--   Config           steam_peer_config.cpp: the options and their conversion; Config/Names and
--                    Config/PeerNames hold the two enumerations of option names and their binding
--   EResult          the results of Steam, and EResult/Text both copies of `_convert_eresult_to_string`
--   Peer/State       the members of `SteamMultiplayerPeer`, and Peer/Action the methods that change it
--   Peer/Settings    the plain getters and setters, and the flags for sending
--   Peer/Registry    `add_connection`, `set_steam_id_peer` and the lookups by either id
--   Peer/Packets     `_put_packet`, `_get_packet` and what is asked of the queue
--   Peer/Poll        `_poll`, `_process_message` and `_process_ping`
--   Peer/Callback    `network_connection_status_changed`
--   Peer/Lifecycle   `create_host`, `create_client`, `_close` and `_disconnect_peer`
--   Peer/Loopback    `create_loopback_client`
-- and under demo/addons/godaemon_multiplayer/:
--   Stream           util/packed_byte_stream.gd
--   Repository       api/repository.gd: the ids of objects
--   Rpc              api/rpc.gd: the bytes of a call, and how a server hands one on; Rpc/Outbound and
--                    Rpc/Inbound hold `outbound_rpc` and `inbound_rpc`
--   RateLimiter      util/rate_limiter.gd
--   Bitpacker        util/bitpacker.gd
-- with Engine, the engine's byte arrays and conversions. The files under them hold theorems; Stream/Fields
-- names the stream's methods by the kind of value.
-- The other files under Connection, Config, EResult and Peer hold theorems, and are named for what they
-- are about; Peer/Runs puts the methods together to runs of any events, Peer/Phases has the diagram of a
-- peer's phases and Peer/Course the runs in it, Peer/Encounter puts a client's and a server's methods
-- together, and Peer/Refs and Peer/Ends carry the lemmas on shared objects and on actions that end. Prelude, HashMap and Godot
-- hold numbers and lists, the engine's hash map and the engine's enumerations. Tests applies the
-- theorems to a small session.
--
-- Functions keep the names of the methods, without a leading underscore. A method that changes the peer
-- and the world outside is an `Action`: it takes a session and gives a result with the session after it,
-- or `none` where the code would use a null pointer. A `Ref` is a number that points into a list of
-- objects, so that the maps share a connection as the code does. An unsigned 32-bit number and an `int`
-- are both a natural number, the bit pattern: -1 is `minus_one`. An enumerated loop of a hash map is
-- recursion on its entries, in the order of insertion. In the scripts an `int` is a 64-bit pattern,
-- but for the cursor and the sizes of a `PackedByteStream`, which are of the signed `ℤ`.
--
-- Steam and the engine are parameters: `Steam.Env` has a field for each call, on an abstract state of
-- everything outside, and `Config.Conversions` the engine's conversions of a `Variant`. Theorems that
-- rely on what Steam or Godot document say so in a hypothesis (`AreDocumented`, `GivesClientIds`,
-- `ReceivesFrom`, and `PollsFrom` for a single poll). `Engine` has what the scripts leave to the
-- engine: its float conversions, its coding of values and what stands in new memory. `DecodesArgs` says
-- of the coding that it gives arguments back, and `RateLimiter.Times.Clock` that times have an order.
-- Every loop ends by its structure but the search for a free id in Repository, whose fuel is one more
-- than the number of entries: each step that goes on has met another entry.
--
-- Not modelled: when reference counting destroys an object (the destructor itself is); what scripts do
-- while a signal is emitted, apart from its record in `emitted`; warnings and printed errors; the texts
-- given to Steam as reasons; the registration of the classes (register_types.cpp), and `get_identity`,
-- which passes one call on. Of the scripts: how the configuration of a script is found and what it
-- answers; the transfer mode, the channel and the rate limits of a call, and the byte that `send_command`
-- appends; and everything under demo/ that is not in the list above.
--
-- Words: a registry is a peer whose maps agree with the connections that they refer to
-- (`Peer.Invariant.IsRegistry`): each entry points at an object, with the Steam id or the peer id under
-- which it stands.
pub mod Prelude
pub mod HashMap
pub mod EResult
pub mod Godot
pub mod Steam
pub mod Packet
pub mod Connection
pub mod Config
pub mod Peer
pub mod Engine
pub mod Stream
pub mod Repository
pub mod Rpc
pub mod RateLimiter
pub mod Bitpacker
pub mod Tests
