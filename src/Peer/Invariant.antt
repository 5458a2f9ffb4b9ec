-- ===== src/Peer/Invariant.antt =====
-- The registry of a peer: its maps agree with the connections that they refer to.
use godot_godaemon_multiplay.Prelude.{
  ℕ, ◌≡◌, refl, sym, ◌∙◌, ◌≢◌, inl, inr, some, arith, ◌==◌, ==_iff, Bool-cases, Option-cases,
  minus_one, get_elem?-append_new,
}
use godot_godaemon_multiplay.HashMap.{lookup, has}
use godot_godaemon_multiplay.Steam.{Env}
use godot_godaemon_multiplay.Connection.{SteamConnection, new_connection}
use godot_godaemon_multiplay.Peer.State.{
  SteamMultiplayerPeer, new_peer, object_at, write_object, new_ref, new_object,
}
use godot_godaemon_multiplay.Peer.Registry.{
  add_connection, setup_loopback_connection, assign_peer_id, set_steam_id_peer,
}
use godot_godaemon_multiplay.Peer.Lifecycle.{reset, forget_peer}
use godot_godaemon_multiplay.Peer.Refs.{
  Fits, Fits-lookup, Fits-insert, Fits-erase, Fits-append, Fits-store, load-store_self,
}

-- The object under a Steam id is the connection to that user.
abbrev pub HasSteamId : ℕ → SteamConnection → Type 0
HasSteamId key c = c.steam_id ≡ key

-- The object under a peer id has that id, which is not the mark of a missing one.
abbrev pub HasPeerId : ℕ → SteamConnection → Type 0
HasPeerId key c = (c.peer_id ≡ key) × (key ≢ minus_one)

pub record IsRegistry (p : SteamMultiplayerPeer) : Type 0 where
  pub by_steam_id : Fits HasSteamId p.connections_by_steam_id64 p.connection_objects
  pub by_peer_id : Fits HasPeerId p.peer_id_to_steam_id p.connection_objects
  pub loopback : Fits HasSteamId p.loopback_connections_by_steam_id64 p.connection_objects

-- The lookups find objects wherever they find an entry, and so do not crash.
pub new_peer-IsRegistry : (listen handle : ℕ) → IsRegistry (new_peer listen handle)
unfolding new_peer
new_peer-IsRegistry listen handle = record { by_steam_id = tt; by_peer_id = tt; loopback = tt }

-- A write to a connection that keeps its two ids.
pub write_object-IsRegistry :
    (a : ℕ) (c c' : SteamConnection) (p : SteamMultiplayerPeer)
    → object_at a p ≡ some c
    → c'.steam_id ≡ c.steam_id
    → c'.peer_id ≡ c.peer_id
    → IsRegistry p
    → IsRegistry (write_object a c' p)
write_object-IsRegistry a c c' p there same_id same_peer r = record {
  by_steam_id = Fits-store HasSteamId _ _ a c c' there (λ k h. same_id ∙ h) r.by_steam_id;
  by_peer_id = Fits-store HasPeerId _ _ a c c' there (λ k h. (same_peer ∙ h.0, h.1)) r.by_peer_id;
  loopback = Fits-store HasSteamId _ _ a c c' there (λ k h. same_id ∙ h) r.loopback;
}

new_object-IsRegistry :
    (c : SteamConnection) (p : SteamMultiplayerPeer) → IsRegistry p → IsRegistry (new_object c p)
new_object-IsRegistry c p r = record {
  by_steam_id = Fits-append HasSteamId _ _ c r.by_steam_id;
  by_peer_id = Fits-append HasPeerId _ _ c r.by_peer_id;
  loopback = Fits-append HasSteamId _ _ c r.loopback;
}

pub setup_loopback_connection-IsRegistry :
    (identity handle : ℕ) (p : SteamMultiplayerPeer)
    → IsRegistry p
    → IsRegistry (setup_loopback_connection identity handle p).1
unfolding setup_loopback_connection new_connection
setup_loopback_connection-IsRegistry identity handle p r =
    let c = new_connection identity handle in
    let grown = new_object-IsRegistry c p r in
    let there = get_elem?-append_new p.connection_objects c in
    record {
      by_steam_id = Fits-insert HasSteamId _ _ identity (new_ref p) c there refl grown.by_steam_id;
      by_peer_id = grown.by_peer_id;
      loopback = Fits-insert HasSteamId _ _ identity (new_ref p) c there refl grown.loopback;
    }

pub reset-IsRegistry : (p : SteamMultiplayerPeer) → IsRegistry (reset p)
unfolding reset
reset-IsRegistry p = record { by_steam_id = tt; by_peer_id = tt; loopback = tt }

pub forget_peer-IsRegistry :
    (peer steam_id : ℕ) (p : SteamMultiplayerPeer)
    → IsRegistry p
    → IsRegistry (forget_peer peer steam_id p)
unfolding forget_peer
forget_peer-IsRegistry peer steam_id p r = record {
  by_steam_id = Fits-erase HasSteamId _ _ steam_id r.by_steam_id;
  by_peer_id = Fits-erase HasPeerId _ _ peer r.by_peer_id;
  loopback = elim (Bool-cases (has steam_id p.loopback_connections_by_steam_id64)) [
    | inl there ↦ rw there (Fits-erase HasSteamId _ _ steam_id r.loopback)
    | inr missing ↦ rw missing r.loopback
  ];
}

pub assign_peer_id-IsRegistry :
    (a peer_id : ℕ) (c : SteamConnection) (p : SteamMultiplayerPeer)
    → object_at a p ≡ some c
    → peer_id ≢ minus_one
    → IsRegistry p
    → IsRegistry (assign_peer_id a peer_id c p)
unfolding assign_peer_id
assign_peer_id-IsRegistry a peer_id c p there real r = elim (Bool-cases (c.peer_id == minus_one)) [
  | inl fresh ↦
      let unset = (==_iff c.peer_id minus_one).0 fresh in
      let c' = record c { peer_id = peer_id } in
      rw fresh (record {
        by_steam_id = Fits-store HasSteamId _ _ a c c' there (λ k h. h) r.by_steam_id;
        by_peer_id =
            Fits-insert HasPeerId _ _ peer_id a c'
              (load-store_self a p.connection_objects c' c there) (refl, real)
              (Fits-store HasPeerId _ _ a c c' there (λ k h. absurd (h.1 (sym h.0 ∙ unset)))
                r.by_peer_id);
        loopback = Fits-store HasSteamId _ _ a c c' there (λ k h. h) r.loopback;
      })
  | inr old ↦ rw old r
]

module _ {W : Type 0} (env : Env W) where
  pub add_connection-IsRegistry :
      (steam_id handle : ℕ) (p : SteamMultiplayerPeer)
      → IsRegistry p
      → IsRegistry (add_connection env steam_id handle p).1
  unfolding add_connection new_connection
  add_connection-IsRegistry steam_id handle p r = elim (Bool-cases (steam_id == env.own_steam_id)) [
    | inl own ↦ rw own r
    | inr other ↦
        let c = new_connection steam_id handle in
        let grown = new_object-IsRegistry c p r in
        let there = get_elem?-append_new p.connection_objects c in
        rw other (record {
          by_steam_id =
              Fits-insert HasSteamId _ _ steam_id (new_ref p) c there refl grown.by_steam_id;
          by_peer_id = grown.by_peer_id;
          loopback = grown.loopback;
        })
  ]

  -- For a peer id that is not the mark of a missing one, `set_steam_id_peer` does not crash on a
  -- registry, and keeps it one.
  pub set_steam_id_peer-IsRegistry :
      (steam_id peer_id : ℕ) (p : SteamMultiplayerPeer)
      → peer_id ≢ minus_one
      → IsRegistry p
      → (q : SteamMultiplayerPeer) × (set_steam_id_peer env steam_id peer_id p ≡ some q)
        × IsRegistry q
  unfolding set_steam_id_peer
  set_steam_id_peer-IsRegistry steam_id peer_id p real r =
      elim (Bool-cases (steam_id == env.own_steam_id)) [
        | inl own ↦ (p, rw own, r)
        | inr other ↦ elim (Option-cases (lookup steam_id p.connections_by_steam_id64)) [
          | inl missing ↦ (p, ground arith, r)
          | inr (a, found) ↦
              let (c, there, fit) = Fits-lookup HasSteamId _ _ steam_id a found r.by_steam_id in
              (
                assign_peer_id a peer_id c p,
                rw (other, found, there),
                assign_peer_id-IsRegistry a peer_id c p there real r,
              )
        ]
      ]
