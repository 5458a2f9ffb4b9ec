-- ===== src/Peer/Closing.antt =====
-- `_close` and `_disconnect_peer` on a registry.
use godot_godaemon_multiplay.Prelude.{
  ℕ, ◌≡◌, refl, sym, subst, ◌∙◌, ◌⊎◌, inl, inr, Bool, true, false, ◌&&◌, Option, none, some, List,
  [], ◌∷◌, arith, ◌==◌, if◌then◌else◌, Bool-cases, Option-cases,
}
use godot_godaemon_multiplay.HashMap.{HashMap, lookup, has, lookup-erase}
use godot_godaemon_multiplay.Godot.{is_connected, disconnected, peer_disconnected}
use godot_godaemon_multiplay.Steam.{Env}
use godot_godaemon_multiplay.Connection
use godot_godaemon_multiplay.Connection.{SteamConnection}
use godot_godaemon_multiplay.Peer.State.{
  SteamMultiplayerPeer, mode_is_client, object_at, is_active, emit_signal,
}
use godot_godaemon_multiplay.Peer.Action.{Session}
use godot_godaemon_multiplay.Packet.{SteamPacketPeer}
use godot_godaemon_multiplay.Peer.Registry.{get_connection_by_peer, connection_of}
use godot_godaemon_multiplay.Peer.Packets.{get_packet_peer}
use godot_godaemon_multiplay.Peer.Lifecycle.{
  reset, forget_peer, forget_connections, close_loop, leave, close, close_if_forced, drop_peer,
  disconnect_peer,
}
use godot_godaemon_multiplay.Peer.Refs.{Fits, Fits-lookup}
use godot_godaemon_multiplay.Peer.Ends.{Ends, Ends-mono, Ends-of_eq, Ends-eq, Ends-if}
use godot_godaemon_multiplay.Peer.Invariant.{
  IsRegistry, HasSteamId, HasPeerId, reset-IsRegistry, forget_peer-IsRegistry,
}

module _ {W : Type 0} (env : Env W) where
  close_loop_total :
      (m : HashMap ℕ) (s : Session W)
      → Fits HasSteamId m s.peer.connection_objects
      → (w : W) × (close_loop env m s ≡ some (tt, record s { world = w }))
  unfolding close_loop
  close_loop_total [] s fits = (s.world, refl)
  close_loop_total ((k, a) ∷ m) s ((c, there, fit), fits) =
      let (w, e) =
        close_loop_total m (record s { world = (Connection.close env c s.world).1 }) fits in
      (w, ground (arith, there, e))

  -- `_close` resets the peer or leaves it alone.
  abbrev Resets : Session W → Unit {0} → Session W → Type 0
  Resets s _ t =
      t.peer
      ≡ (if is_active s.peer && is_connected s.peer.connection_status then reset s.peer else s.peer)

  close-Resets : (s : Session W) → IsRegistry s.peer → Ends (close env s) (Resets s)
  unfolding close
  close-Resets s r =
      let (w, e) = close_loop_total s.peer.connections_by_steam_id64 s r.by_steam_id in
      elim (Bool-cases (is_active s.peer)) [
        | inr idle ↦ Ends-of_eq (Resets s) (close env s) tt s (ground arith) (ground arith)
        | inl active ↦ elim (Bool-cases (is_connected s.peer.connection_status)) [
          | inr away ↦ Ends-of_eq (Resets s) (close env s) tt s (ground arith) (ground arith)
          | inl here ↦
              Ends-of_eq (Resets s) (close env s) tt
                (record { peer = reset s.peer; world = leave env s.peer w }) (ground (arith, e))
                (ground arith)
        ]
      ]

  -- A peer without connections that is not in use.
  abbrev pub IsClosed : SteamMultiplayerPeer → Type 0
  IsClosed p =
      (p.connections_by_steam_id64 ≡ [])
      × (p.peer_id_to_steam_id ≡ [])
      × (p.loopback_connections_by_steam_id64 ≡ [])
      × (is_active p ≡ false)
      × (p.connection_status ≡ disconnected)
      × (p.unique_id ≡ 0)

  -- What `_close` leaves of the peer.
  abbrev pub Closes : Session W → Unit {0} → Session W → Type 0
  Closes s _ t =
      ((is_active s.peer ≡ true)
        × (is_connected s.peer.connection_status ≡ true)
        × IsClosed t.peer
        × (t.peer.incoming_packets ≡ s.peer.incoming_packets))
      ⊎ ((is_active s.peer && is_connected s.peer.connection_status ≡ false) × (t ≡ s))

  abbrev pub EndsRegistry : Option (Unit {0} × Session W) → Type 0
  EndsRegistry r = Ends r (λ _ t. IsRegistry t.peer)

  pub close-IsRegistry : (s : Session W) → IsRegistry s.peer → EndsRegistry (close env s)
  close-IsRegistry s r =
      Ends-mono (Resets s) (λ _ t. IsRegistry t.peer) (close env s) (close-Resets s r)
        λ _ t same. elim (Bool-cases (is_active s.peer && is_connected s.peer.connection_status)) [
          | inl both ↦ subst IsRegistry (sym (same ∙ (rw both))) (reset-IsRegistry s.peer)
          | inr other ↦ subst IsRegistry (sym (same ∙ (rw other))) r
        ]

  close_if_forced-IsRegistry :
      (force : Bool) (s : Session W)
      → IsRegistry s.peer
      → EndsRegistry (close_if_forced env force s)
  unfolding close_if_forced forget_connections
  close_if_forced-IsRegistry force s r =
      elim (Bool-cases (force && mode_is_client s.peer.active_mode)) [
        | inl forced ↦ rw forced (
            close-IsRegistry (record s { peer = forget_connections s.peer })
              (record { by_steam_id = tt; by_peer_id = r.by_peer_id; loopback = tt }))
        | inr not_forced ↦ rw not_forced r
      ]

module _ {W : Type 0} (env : Env W) (up : env.sockets ≡ true) where
  flush_total : (c : SteamConnection) (w : W) → (w' : W) × (Connection.flush env c w ≡ some w')
  unfolding Connection.flush
  flush_total c w = elim (Bool-cases (c.steam_connection == env.invalid_connection)) [
    | inl invalid ↦ (w, ground arith)
    | inr valid ↦ (env.flush_messages_on_connection c.steam_connection w, ground arith)
  ]

  drop_peer-IsRegistry :
      (peer : ℕ) (force : Bool) (c : SteamConnection) (s : Session W)
      → IsRegistry s.peer
      → EndsRegistry env (drop_peer env peer force c s)
  unfolding drop_peer
  drop_peer-IsRegistry peer force c s r =
      let (w, e) = flush_total c s.world in
      let t : Session W = record {
        peer = emit_signal (peer_disconnected peer) (forget_peer peer c.steam_id s.peer);
        world = w;
      } in
      let f = forget_peer-IsRegistry peer c.steam_id s.peer r in
      subst
        (λ x.
          EndsRegistry env
            (elim x [ none ↦ none | some u ↦ close_if_forced env force (record t { world = u }) ]))
        (sym e)
        (close_if_forced-IsRegistry env force t (record {
          by_steam_id = f.by_steam_id;
          by_peer_id = f.by_peer_id;
          loopback = f.loopback;
        }))

  disconnect_step :
      (peer : ℕ) (force : Bool) (s : Session W) (a : ℕ) (c : SteamConnection)
      → is_active s.peer ≡ true
      → lookup peer s.peer.peer_id_to_steam_id ≡ some a
      → object_at a s.peer ≡ some c
      → disconnect_peer env peer force s ≡ (
          if (Connection.close env c s.world).0
          then drop_peer env peer force c (record s { world = (Connection.close env c s.world).1 })
          else some (tt, record s { world = (Connection.close env c s.world).1 }))
  unfolding disconnect_peer get_connection_by_peer
  disconnect_step peer force s a c active entry there = ground (arith, there)

  -- With Steam there, `_disconnect_peer` of a registry does not crash and leaves a registry, for
  -- every peer id, forced or not, on every branch.
  pub disconnect_peer-IsRegistry :
      (peer : ℕ) (force : Bool) (s : Session W)
      → IsRegistry s.peer
      → EndsRegistry env (disconnect_peer env peer force s)
  unfolding disconnect_peer get_connection_by_peer
  disconnect_peer-IsRegistry peer force s r = elim (Bool-cases (is_active s.peer)) [
    | inr idle ↦ rw idle r
    | inl active ↦ elim (Option-cases (lookup peer s.peer.peer_id_to_steam_id)) [
      | inl missing ↦ rw (active, missing) r
      | inr (a, entry) ↦
          let (c, there, fit) = Fits-lookup HasPeerId _ _ peer a entry r.by_peer_id in
          let t : Session W = record s { world = (Connection.close env c s.world).1 } in
          Ends-eq (λ _ t. IsRegistry t.peer) (disconnect_peer env peer force s) _
            (disconnect_step peer force s a c active entry there)
            (Ends-if (λ _ t. IsRegistry t.peer) (Connection.close env c s.world).0
              (drop_peer env peer force c t) (some (tt, t))
              (λ _. drop_peer-IsRegistry peer force c t r) (λ _. r))
    ]
  ]

  -- What an unforced `_disconnect_peer` leaves: no entry for the peer id nor for the connection's
  -- Steam id, every other peer id as before, and the signal emitted.
  abbrev pub Forgotten : ℕ → SteamConnection → Session W → Unit {0} → Session W → Type 0
  Forgotten peer c s _ t =
      ((id : ℕ)
        → get_connection_by_peer id t.peer
          ≡ (if peer == id then none else get_connection_by_peer id s.peer))
      × (lookup c.steam_id t.peer.connections_by_steam_id64 ≡ none)
      × (lookup c.steam_id t.peer.loopback_connections_by_steam_id64 ≡ none)
      × (t.peer.emitted ≡ peer_disconnected peer ∷ s.peer.emitted)

  loopback_forgotten :
      (peer steam_id : ℕ) (p : SteamMultiplayerPeer)
      → lookup steam_id (forget_peer peer steam_id p).loopback_connections_by_steam_id64 ≡ none
  unfolding forget_peer has
  loopback_forgotten peer steam_id p =
      ground (arith, lookup-erase steam_id steam_id p.loopback_connections_by_steam_id64)

  disconnect_peer_eq :
      (peer : ℕ) (s : Session W) (a : ℕ) (c : SteamConnection)
      → is_active s.peer ≡ true
      → get_connection_by_peer peer s.peer ≡ some a
      → object_at a s.peer ≡ some c
      → (Connection.close env c s.world).0 ≡ true
      → (w : W) × (disconnect_peer env peer false s
          ≡ some (
            tt,
            record {
              peer = emit_signal (peer_disconnected peer) (forget_peer peer c.steam_id s.peer);
              world = w;
            },
          ))
  unfolding drop_peer get_connection_by_peer close_if_forced
  disconnect_peer_eq peer s a c active entry there closed =
      let (w, e) = flush_total c (Connection.close env c s.world).1 in
      (w, disconnect_step peer false s a c active entry there ∙ ground (arith, closed, e))

  -- With Steam there, on an active peer, and where Steam closes the connection of a known peer,
  -- an unforced `_disconnect_peer` forgets the peer and no other peer id, and emits
  -- `peer_disconnected`.
  pub disconnect_peer-Forgotten :
      (peer : ℕ) (s : Session W) (a : ℕ) (c : SteamConnection)
      → is_active s.peer ≡ true
      → get_connection_by_peer peer s.peer ≡ some a
      → object_at a s.peer ≡ some c
      → (Connection.close env c s.world).0 ≡ true
      → Ends (disconnect_peer env peer false s) (Forgotten peer c s)
  unfolding forget_peer get_connection_by_peer
  disconnect_peer-Forgotten peer s a c active entry there closed =
      let (w, e) = disconnect_peer_eq peer s a c active entry there closed in
      Ends-of_eq (Forgotten peer c s) (disconnect_peer env peer false s) tt _ e (
        (λ id. lookup-erase peer id s.peer.peer_id_to_steam_id),
        ground (arith, lookup-erase c.steam_id c.steam_id s.peer.connections_by_steam_id64),
        loopback_forgotten peer c.steam_id s.peer,
        refl,
      )

  -- With Steam there, on an active peer, and where Steam closes the connection of a known peer
  -- whose packet is the first that waits, an unforced `_disconnect_peer` ends with
  -- `_get_packet_peer` crashing: it looks the sender up in the map of connections, where the
  -- entry is gone.
  pub get_packet_peer-disconnect_peer :
      (peer : ℕ) (s : Session W) (a : ℕ) (c : SteamConnection) (packet : SteamPacketPeer)
      (rest : List SteamPacketPeer)
      → is_active s.peer ≡ true
      → get_connection_by_peer peer s.peer ≡ some a
      → object_at a s.peer ≡ some c
      → (Connection.close env c s.world).0 ≡ true
      → s.peer.incoming_packets ≡ packet ∷ rest
      → packet.sender ≡ c.steam_id
      → Ends (disconnect_peer env peer false s) (λ _ t. get_packet_peer t.peer ≡ none)
  unfolding get_packet_peer forget_peer connection_of
  get_packet_peer-disconnect_peer peer s a c packet rest active entry there closed waits from =
      let (w, e) = disconnect_peer_eq peer s a c active entry there closed in
      Ends-of_eq (λ _ t. get_packet_peer t.peer ≡ none) (disconnect_peer env peer false s) tt _ e
        (ground
          (arith, waits, from, lookup-erase c.steam_id c.steam_id s.peer.connections_by_steam_id64))
