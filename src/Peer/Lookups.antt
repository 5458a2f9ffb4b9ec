-- ===== src/Peer/Lookups.antt =====
-- The queries by peer id and Steam id on a registry.
use godot_godaemon_multiplay.Prelude.{
  ℕ, ◌≡◌, refl, inl, inr, some, [], ◌∷◌, arith, ◌==◌, Bool-cases, Option-cases, minus_one,
  minus_one64,
}
use godot_godaemon_multiplay.HashMap.{HashMap, lookup, insert, has}
use godot_godaemon_multiplay.Steam.{Env}
use godot_godaemon_multiplay.Peer.State.{SteamMultiplayerPeer}
use godot_godaemon_multiplay.Peer.Registry.{
  connection_of, peer_map_loop, get_peer_map, get_steam64_from_peer_id, get_peer_id_from_steam64,
  is_peer_loopback,
}
use godot_godaemon_multiplay.Peer.Refs.{Fits, Fits-lookup}
use godot_godaemon_multiplay.Peer.Invariant.{IsRegistry, HasSteamId, HasPeerId}

peer_map_loop_total :
    (m output : HashMap ℕ) (p : SteamMultiplayerPeer)
    → Fits HasSteamId m p.connection_objects
    → (r : HashMap ℕ) × (peer_map_loop m output p ≡ some r)
unfolding peer_map_loop
peer_map_loop_total [] output p fits = (output, refl)
peer_map_loop_total ((k, a) ∷ m) output p ((c, there, fit), fits) =
    let (r, e) = peer_map_loop_total m (insert c.peer_id c.steam_id output) p fits in
    (r, ground (arith, there, e))

module _ {W : Type 0} (env : Env W) (p : SteamMultiplayerPeer) (r : IsRegistry p) where
  steam64_total : (id : ℕ) → (steam : ℕ) × (get_steam64_from_peer_id env id p ≡ some steam)
  unfolding get_steam64_from_peer_id connection_of has
  steam64_total id = elim (Bool-cases (id == p.unique_id)) [
    | inl own ↦ (env.own_steam_id, ground arith)
    | inr other ↦ elim (Option-cases (lookup id p.peer_id_to_steam_id)) [
      | inl missing ↦ (minus_one64, ground arith)
      | inr (a, found) ↦
          let (c, there, fit) = Fits-lookup HasPeerId _ _ id a found r.by_peer_id in
          (c.steam_id, ground (arith, there))
    ]
  ]

  peer_id_total : (steam_id : ℕ) → (id : ℕ) × (get_peer_id_from_steam64 env steam_id p ≡ some id)
  unfolding get_peer_id_from_steam64 connection_of has
  peer_id_total steam_id = elim (Bool-cases (steam_id == env.own_steam_id)) [
    | inl own ↦ (p.unique_id, ground arith)
    | inr other ↦ elim (Option-cases (lookup steam_id p.connections_by_steam_id64)) [
      | inl missing ↦ (minus_one, ground arith)
      | inr (a, found) ↦
          let (c, there, fit) = Fits-lookup HasSteamId _ _ steam_id a found r.by_steam_id in
          (c.peer_id, ground (arith, there))
    ]
  ]

  -- On a registry `get_steam64_from_peer_id`, `get_peer_id_from_steam64`, `is_peer_loopback` and
  -- `get_peer_map` do not crash for any id, and `is_peer_loopback` tells whether the Steam id
  -- that the first gives has a loopback connection.
  pub queries_total :
      (id steam_id : ℕ)
      → ((steam : ℕ) × (get_steam64_from_peer_id env id p ≡ some steam)
          × (is_peer_loopback env id p ≡ some (has steam p.loopback_connections_by_steam_id64)))
        × ((peer : ℕ) × (get_peer_id_from_steam64 env steam_id p ≡ some peer))
        × ((peers : HashMap ℕ) × (get_peer_map p ≡ some peers))
  unfolding is_peer_loopback get_peer_map
  queries_total id steam_id =
      let (steam, e) = steam64_total id in
      (
        (steam, e, ground (arith, e)),
        peer_id_total steam_id,
        peer_map_loop_total p.connections_by_steam_id64 [] p r.by_steam_id,
      )
