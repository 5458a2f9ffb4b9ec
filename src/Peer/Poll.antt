-- ===== src/Peer/Poll.antt =====
-- `_poll`, `_process_message` and `_process_ping` of `SteamMultiplayerPeer`. Signals are recorded;
-- what a script does while one is emitted is not part of the model.
use godot_godaemon_multiplay.Prelude.{
  ℕ, not, Option, none, some, List, [], ◌∷◌, ◌++◌, ◌==◌, if◌then◌else◌, ltb, length, minus_one,
  u32_of_bytes,
}
use godot_godaemon_multiplay.HashMap.{HashMap, lookup, insert}
use godot_godaemon_multiplay.Godot.{peer_connected}
use godot_godaemon_multiplay.Steam.{Constants, Env}
use godot_godaemon_multiplay.Steam.Types.{Message}
use godot_godaemon_multiplay.Packet.{SteamPacketPeer}
use godot_godaemon_multiplay.Connection.{send_peer}
use godot_godaemon_multiplay.Peer.State.{
  SteamMultiplayerPeer, null_ref, is_active, object_at, emit_signal,
}
use godot_godaemon_multiplay.Peer.Action.{Action, on_connection}
use godot_godaemon_multiplay.Peer.Settings.{is_server}
use godot_godaemon_multiplay.Peer.Registry.{get_peer_id_from_steam64, set_steam_id_peer}

-- The packet that `_process_message` makes of a message.
unfoldable pub received_packet : Message → SteamPacketPeer
received_packet msg = record {
  bytes = msg.payload;
  size = length msg.payload;
  sender = msg.identity_peer;
  transfer_mode = msg.flags;
}

unfoldable pub process_message : Constants → Message → SteamMultiplayerPeer → SteamMultiplayerPeer
process_message c msg p =
    if ltb c.max_steam_packet_size (length msg.payload)
    then p
    else record p { incoming_packets = p.incoming_packets ++ received_packet msg ∷ [] }

abbrev pub add_null_entry : ℕ → SteamMultiplayerPeer → SteamMultiplayerPeer
add_null_entry steam_id p = record p {
  connections_by_steam_id64 = insert steam_id null_ref p.connections_by_steam_id64;
}

-- The peer id of the object behind a `Ref`.
abbrev pub peer_id_at : ℕ → SteamMultiplayerPeer → Option ℕ
peer_id_at a p = elim (object_at a p) [ none ↦ none | some c ↦ some c.peer_id ]

module _ {W : Type 0} (env : Env W) where
  -- The first `if` in `_process_ping`: the id is taken if the connection has none yet.
  unfoldable pub take_peer_id : ℕ → ℕ → ℕ → SteamMultiplayerPeer → Option SteamMultiplayerPeer
  take_peer_id a steam_id peer_id p = elim (object_at a p) [
    | none ↦ none
    | some c ↦ if c.peer_id == minus_one then set_steam_id_peer env steam_id peer_id p else some p
  ]

  -- A server answers a ping with its own id.
  unfoldable pub answer_if_server : ℕ → Action W (Unit {0})
  answer_if_server a s =
      if is_server s.peer
      then elim (on_connection a (send_peer env s.peer.unique_id) s) [
        | none ↦ none
        | some (error_code, t) ↦ some (tt, t)
      ]
      else some (tt, s)

  -- `emit_signal("peer_connected", connection->peer_id)`.
  unfoldable pub announce : ℕ → Action W (Unit {0})
  announce a s = elim (peer_id_at a s.peer) [
    | none ↦ none
    | some id ↦ some (tt, record s { peer = emit_signal (peer_connected id) s.peer })
  ]

  -- `_process_ping` once the id is taken.
  unfoldable pub reply_ping : ℕ → Action W (Unit {0})
  reply_ping a s = elim (answer_if_server a s) [ none ↦ none | some (_, t) ↦ announce a t ]

  -- `_process_ping` for a payload that holds a peer id.
  unfoldable pub answer_ping : ℕ → ℕ → ℕ → Action W (Unit {0})
  answer_ping a steam_id peer_id s = elim (take_peer_id a steam_id peer_id s.peer) [
    | none ↦ none
    | some q ↦ reply_ping a (record s { peer = q })
  ]

  -- For a sender with no entry `connections_by_steamId64[steam_id]` adds one that holds a null `Ref`.
  unfoldable pub process_ping : Message → Action W (Unit {0})
  process_ping msg s =
      if not (length msg.payload == 4) then some (tt, s) else elim (u32_of_bytes msg.payload) [
        | none ↦ some (tt, s)
        | some peer_id ↦ elim (lookup msg.identity_peer s.peer.connections_by_steam_id64) [
          | none ↦
              if peer_id == minus_one
              then some (tt, record s { peer = add_null_entry msg.identity_peer s.peer })
              else none
          | some a ↦
              if peer_id == minus_one
              then some (tt, s)
              else answer_ping a msg.identity_peer peer_id s
        ]
      ]

  -- One message in `_poll`.
  unfoldable pub process_one : Message → Action W (Unit {0})
  process_one msg s = elim (get_peer_id_from_steam64 env msg.identity_peer s.peer) [
    | none ↦ none
    | some peer_id ↦
        if not (peer_id == minus_one)
        then some (tt, record s { peer = process_message env.constants msg s.peer })
        else process_ping msg s
  ]

  unfoldable pub process_all : List Message → Action W (Unit {0})
  process_all [] s = some (tt, s)
  process_all (msg ∷ rest) s = elim (process_one msg s) [
    | none ↦ none
    | some (_, t) ↦ process_all rest t
  ]

  -- One connection in `_poll`: `MAX_MESSAGE_COUNT` is 255.
  unfoldable pub poll_connection : ℕ → Action W (Unit {0})
  poll_connection a s = elim (object_at a s.peer) [
    | none ↦ none
    | some c ↦
        if env.sockets
        then (let (messages, w) =
              env.receive_messages_on_connection c.steam_connection 255 s.world in
            process_all messages (record s { world = w }))
        else none
  ]

  -- The loop of `_poll` over all connections.
  unfoldable pub poll_loop : HashMap ℕ → Action W (Unit {0})
  poll_loop [] s = some (tt, s)
  poll_loop ((steam_id, a) ∷ rest) s = elim (poll_connection a s) [
    | none ↦ none
    | some (_, t) ↦ poll_loop rest t
  ]

  -- An entry that a ping adds meanwhile stands at the end of the map and holds a null `Ref`: the
  -- loop reaches it and crashes.
  unfoldable pub poll : Action W (Unit {0})
  poll s =
      if is_active s.peer
      then elim (poll_loop s.peer.connections_by_steam_id64 s) [
        | none ↦ none
        | some (_, t) ↦
            if length t.peer.connections_by_steam_id64 == length s.peer.connections_by_steam_id64
            then some (tt, t)
            else none
      ]
      else some (tt, s)
