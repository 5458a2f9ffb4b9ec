-- ===== src/Peer/Registry.antt =====
-- The three maps of a `SteamMultiplayerPeer`, from Steam ids and peer ids to connections. `none` as a
-- result is a crash: `[]` of a constant map at a missing key, or a use of a null `Ref`.
use godot_godaemon_multiplay.Prelude.{
  ℕ, Bool, Option, none, some, [], ◌∷◌, ◌==◌, if◌then◌else◌, minus_one, minus_one64,
}
use godot_godaemon_multiplay.HashMap.{HashMap, lookup, has, insert}
use godot_godaemon_multiplay.Steam.{Env}
use godot_godaemon_multiplay.Connection.{SteamConnection, new_connection}
use godot_godaemon_multiplay.Peer.State.{
  SteamMultiplayerPeer, null_ref, object_at, write_object, new_ref, new_object,
}

-- The `Ref` for a peer id; `none` is the null `Ref`.
unfoldable pub get_connection_by_peer : ℕ → SteamMultiplayerPeer → Option ℕ
get_connection_by_peer peer_id p = lookup peer_id p.peer_id_to_steam_id

-- The object that a map has for a key.
unfoldable pub connection_of : ℕ → HashMap ℕ → SteamMultiplayerPeer → Option SteamConnection
connection_of key m p = elim (lookup key m) [ none ↦ none | some a ↦ object_at a p ]

-- `setup_loopback_connection`.
unfoldable pub setup_loopback_connection : ℕ → ℕ → SteamMultiplayerPeer → ℕ × SteamMultiplayerPeer
setup_loopback_connection identity handle p = (
  new_ref p,
  record (new_object (new_connection identity handle) p) {
    connections_by_steam_id64 = insert identity (new_ref p) p.connections_by_steam_id64;
    loopback_connections_by_steam_id64 =
        insert identity (new_ref p) p.loopback_connections_by_steam_id64;
  },
)

-- The loop of `get_peer_map`, over the entries of `connections_by_steamId64`.
unfoldable pub peer_map_loop : HashMap ℕ → HashMap ℕ → SteamMultiplayerPeer → Option (HashMap ℕ)
peer_map_loop [] output p = some output
peer_map_loop ((steam_id, a) ∷ rest) output p = elim (object_at a p) [
  | none ↦ none
  | some c ↦ peer_map_loop rest (insert c.peer_id c.steam_id output) p
]

unfoldable pub get_peer_map : SteamMultiplayerPeer → Option (HashMap ℕ)
get_peer_map p = peer_map_loop p.connections_by_steam_id64 [] p

-- The part of `set_steam_id_peer` behind its two guards.
unfoldable pub assign_peer_id :
    ℕ → ℕ → SteamConnection → SteamMultiplayerPeer → SteamMultiplayerPeer
assign_peer_id a peer_id con p =
    if con.peer_id == minus_one
    then record (write_object a (record con { peer_id = peer_id }) p) {
      peer_id_to_steam_id = insert peer_id a p.peer_id_to_steam_id;
    }
    else p

module _ {W : Type 0} (env : Env W) where
  -- `add_connection`: for the user's own id it prints an error and gives the null `Ref`.
  unfoldable pub add_connection : ℕ → ℕ → SteamMultiplayerPeer → ℕ × SteamMultiplayerPeer
  add_connection steam_id handle p = if steam_id == env.own_steam_id then (null_ref, p) else (
    new_ref p,
    record (new_object (new_connection steam_id handle) p) {
      connections_by_steam_id64 = insert steam_id (new_ref p) p.connections_by_steam_id64;
    },
  )

  unfoldable pub get_steam64_from_peer_id : ℕ → SteamMultiplayerPeer → Option ℕ
  get_steam64_from_peer_id peer_id p =
      if peer_id == p.unique_id
      then some env.own_steam_id
      else if has peer_id p.peer_id_to_steam_id
      then elim (connection_of peer_id p.peer_id_to_steam_id p) [
        | none ↦ none
        | some c ↦ some c.steam_id
      ]
      else some minus_one64

  unfoldable pub get_peer_id_from_steam64 : ℕ → SteamMultiplayerPeer → Option ℕ
  get_peer_id_from_steam64 steam_id p =
      if steam_id == env.own_steam_id
      then some p.unique_id
      else if has steam_id p.connections_by_steam_id64
      then elim (connection_of steam_id p.connections_by_steam_id64 p) [
        | none ↦ none
        | some c ↦ some c.peer_id
      ]
      else some minus_one

  unfoldable pub set_steam_id_peer : ℕ → ℕ → SteamMultiplayerPeer → Option SteamMultiplayerPeer
  set_steam_id_peer steam_id peer_id p =
      if steam_id == env.own_steam_id
      then some p
      else elim (lookup steam_id p.connections_by_steam_id64) [
        | none ↦ some p
        | some a ↦ elim (object_at a p) [
          | none ↦ none
          | some con ↦ some (assign_peer_id a peer_id con p)
        ]
      ]

  -- `is_peer_loopback`.
  unfoldable pub is_peer_loopback : ℕ → SteamMultiplayerPeer → Option Bool
  is_peer_loopback peer p = elim (get_steam64_from_peer_id peer p) [
    | none ↦ none
    | some steam_id ↦ some (has steam_id p.loopback_connections_by_steam_id64)
  ]
