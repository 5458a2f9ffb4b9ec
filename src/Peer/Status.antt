-- ===== src/Peer/Status.antt =====
-- `network_connection_status_changed` on a registry.
use godot_godaemon_multiplay.Prelude.{
  ℕ, ◌≡◌, ◌≢◌, inl, inr, Bool, true, false, Option, none, some, arith, ◌==◌, if◌then◌else◌,
  Bool-cases, Option-cases, minus_one, get_elem?-append_new,
}
use godot_godaemon_multiplay.HashMap.{lookup}
use godot_godaemon_multiplay.Godot.{is_connected, connected, connecting, err_already_in_use}
use godot_godaemon_multiplay.EResult.{is_ok}
use godot_godaemon_multiplay.Steam.{Env}
use godot_godaemon_multiplay.Steam.Types.{
  StatusChanged, ConnectionEnd, unspecified, app_exception_generic,
}
use godot_godaemon_multiplay.Connection.{new_connection}
use godot_godaemon_multiplay.Peer.State.{SteamMultiplayerPeer, object_at, is_active}
use godot_godaemon_multiplay.Peer.Action.{Session}
use godot_godaemon_multiplay.Peer.Settings.{is_server}
use godot_godaemon_multiplay.Peer.Registry.{add_connection}
use godot_godaemon_multiplay.Peer.Lifecycle.{close, disconnect_peer, create_host, create_client}
use godot_godaemon_multiplay.Peer.Loopback.{create_loopback_client}
use godot_godaemon_multiplay.Config.{Conversions}
use godot_godaemon_multiplay.Peer.Callback.{
  has_arrived, was_accepted, was_closed_by_peer, was_lost, is_ignored, close_handle, accept_handle,
  on_arrived, client_accepted, on_accepted, close_if_active, connected_client_ended, client_ended,
  server_ended, on_ended, network_connection_status_changed,
}
use godot_godaemon_multiplay.Peer.Refs.{Fits-lookup}
use godot_godaemon_multiplay.Peer.Ends.{Ends, Ends-of_eq, Ends-eq, Ends-bind, Ends-if}
use godot_godaemon_multiplay.Peer.Invariant.{IsRegistry, HasSteamId, add_connection-IsRegistry}
use godot_godaemon_multiplay.Peer.Receiving.{Handled, send_peer-Handled}
use godot_godaemon_multiplay.Peer.Closing.{
  EndsRegistry, close-IsRegistry, disconnect_peer-IsRegistry,
}

module _ {W : Type 0} (env : Env W) (conv : Conversions) where
  -- A client that is rejected cannot be used again: while it is active and connecting, a report
  -- other than that the connection was accepted changes nothing, `_close` changes nothing, and
  -- `create_host`, `create_client` and `create_loopback_client` refuse with `ERR_ALREADY_IN_USE`
  -- and change nothing.
  pub rejected_client_unchanged :
      (ev : StatusChanged) (user port : ℕ) (host : Option SteamMultiplayerPeer) (s : Session W)
      → is_server s.peer ≡ false
      → is_active s.peer ≡ true
      → s.peer.connection_status ≡ connecting
      → was_accepted ev ≡ false
      → (network_connection_status_changed env ev s ≡ some (tt, s))
        × (close env s ≡ some (tt, s))
        × (create_host env conv port s ≡ some (err_already_in_use, s))
        × (create_client env conv user port s ≡ some (err_already_in_use, s))
        × (create_loopback_client env conv host s ≡ some (err_already_in_use, host, s))
  unfolding network_connection_status_changed on_arrived on_ended client_ended close_if_active close
      create_host create_client create_loopback_client
  rejected_client_unchanged ev user port host s client active trying rejected =
      (ground arith, ground arith, ground arith, ground arith, ground arith)

module _ {W : Type 0} (env : Env W) where
  -- A client that is not connected, and that a report it does not ignore tells of an accepted
  -- connection to the user's own id, crashes: `add_connection` refuses that id with a null
  -- `Ref`, through which the callback then sends.
  pub client_accepts_self_crash :
      (ev : StatusChanged) (s : Session W)
      → is_server s.peer ≡ false
      → is_connected s.peer.connection_status ≡ false
      → is_ignored env ev s.peer ≡ false
      → has_arrived ev ≡ false
      → was_accepted ev ≡ true
      → ev.identity_remote ≡ env.own_steam_id
      → network_connection_status_changed env ev s ≡ none
  unfolding network_connection_status_changed on_accepted client_accepted add_connection
  client_accepts_self_crash ev s client away heard not_arrived accepted self = ground arith

  close_if_active-IsRegistry :
      (s : Session W) → IsRegistry s.peer → EndsRegistry env (close_if_active env s)
  unfolding close_if_active
  close_if_active-IsRegistry s r =
      Ends-if (λ _ t. IsRegistry t.peer) (is_active s.peer) (close env s) (some (tt, s))
        (λ _. close-IsRegistry env s r) (λ _. r)

module _ {W : Type 0} (env : Env W) (up : env.sockets ≡ true) where
  abbrev pub KeepsRegistry : {A : Type 0} → A → Session W → Type 0
  KeepsRegistry a t = IsRegistry t.peer

  pub added_object :
      (steam_id handle : ℕ) (p : SteamMultiplayerPeer)
      → steam_id ≢ env.own_steam_id
      → object_at (add_connection env steam_id handle p).0 (add_connection env steam_id handle p).1
        ≡ some (new_connection steam_id handle)
  unfolding add_connection
  added_object steam_id handle p other =
      let e : (steam_id == env.own_steam_id) ≡ false = ground arith in
      rw e (get_elem?-append_new p.connection_objects (new_connection steam_id handle))

  client_accepted-IsRegistry :
      (ev : StatusChanged) (s : Session W)
      → ev.identity_remote ≢ env.own_steam_id
      → IsRegistry s.peer
      → EndsRegistry env (client_accepted env ev s)
  unfolding client_accepted
  client_accepted-IsRegistry ev s other r =
      let p : SteamMultiplayerPeer = record s.peer { connection_status = connected } in
      let q = (add_connection env ev.identity_remote ev.connection p).1 in
      let a = (add_connection env ev.identity_remote ev.connection p).0 in
      let joined : Session W = record s { peer = record q { client_steam_connection = a } } in
      let g = add_connection-IsRegistry env ev.identity_remote ev.connection p (record {
        by_steam_id = r.by_steam_id;
        by_peer_id = r.by_peer_id;
        loopback = r.loopback;
      }) in
      Ends-bind (λ _ t. Handled joined t) (λ _ t. IsRegistry t.peer) _ (λ _ t. some (tt, t))
        (send_peer-Handled env up a joined.peer.unique_id
          (new_connection ev.identity_remote ev.connection) joined
          (added_object ev.identity_remote ev.connection p other)
          (record {
            by_steam_id = g.by_steam_id;
            by_peer_id = g.by_peer_id;
            loopback = g.loopback;
          }))
        (λ _ t h. h.registry)

  connected_client_ended-IsRegistry :
      (s : Session W) → IsRegistry s.peer → EndsRegistry env (connected_client_ended env s)
  unfolding connected_client_ended
  connected_client_ended-IsRegistry s r =
      Ends-bind (λ _ t. IsRegistry t.peer) (λ _ t. IsRegistry t.peer) _
        (λ _ t. close_if_active env t) (disconnect_peer-IsRegistry env up 1 true s r)
        (λ _ t h. close_if_active-IsRegistry env t h)

  client_ended-IsRegistry :
      (s : Session W) → IsRegistry s.peer → Ends (client_ended env s) KeepsRegistry
  unfolding client_ended
  client_ended-IsRegistry s r = elim (Bool-cases (is_connected s.peer.connection_status)) [
    | inl here ↦ rw here (
        Ends-bind (λ _ t. IsRegistry t.peer) KeepsRegistry _ (λ _ t. some (true, t))
          (connected_client_ended-IsRegistry s r) (λ _ t h. h))
    | inr away ↦ rw away (
        Ends-bind (λ _ t. IsRegistry t.peer) KeepsRegistry _ (λ _ t. some (false, t))
          (close_if_active-IsRegistry env s r) (λ _ t h. h))
  ]

  server_ended-IsRegistry :
      (steam_id : ℕ) (s : Session W)
      → IsRegistry s.peer
      → Ends (server_ended env steam_id s) KeepsRegistry
  unfolding server_ended
  server_ended-IsRegistry steam_id s r =
      elim (Option-cases (lookup steam_id s.peer.connections_by_steam_id64)) [
        | inl missing ↦
            Ends-of_eq KeepsRegistry (server_ended env steam_id s) false s (ground arith) r
        | inr (a, entry) ↦
            let (c, there, fit) = Fits-lookup HasSteamId _ _ steam_id a entry r.by_steam_id in
            elim (Bool-cases (c.peer_id == minus_one)) [
              | inl unset ↦
                  Ends-of_eq KeepsRegistry (server_ended env steam_id s) false s
                    (ground (arith, there)) r
              | inr known ↦
                  Ends-eq KeepsRegistry (server_ended env steam_id s)
                    (elim (disconnect_peer env c.peer_id false s) [
                      | none ↦ none
                      | some (_, t) ↦ some (true, t)
                    ])
                    (ground (arith, there))
                    (Ends-bind (λ _ t. IsRegistry t.peer) KeepsRegistry _ (λ _ t. some (true, t))
                      (disconnect_peer-IsRegistry env up c.peer_id false s r) (λ _ t h. h))
            ]
      ]

  close_handle_total :
      (handle : ℕ) (reason : ConnectionEnd) (s : Session W)
      → (w : W) × (close_handle env handle reason s ≡ some (tt, record s { world = w }))
  unfolding close_handle
  close_handle_total handle reason s =
      ((env.close_connection handle reason false s.world).1, ground (arith, up))

  acknowledge-IsRegistry :
      (handled : Bool) (handle : ℕ) (s : Session W)
      → IsRegistry s.peer
      → EndsRegistry env (if handled then close_handle env handle unspecified s else some (tt, s))
  acknowledge-IsRegistry false handle s r = r
  acknowledge-IsRegistry true handle s r =
      let (w, e) = close_handle_total handle unspecified s in
      Ends-of_eq KeepsRegistry (close_handle env handle unspecified s) tt (record s { world = w }) e
        r

  on_ended-IsRegistry :
      (ev : StatusChanged) (s : Session W)
      → IsRegistry s.peer
      → EndsRegistry env (on_ended env ev s)
  unfolding on_ended
  on_ended-IsRegistry ev s r =
      Ends-bind KeepsRegistry KeepsRegistry _
        (λ handled t.
          if handled then close_handle env ev.connection unspecified t else some (tt, t))
        (Ends-if KeepsRegistry (is_server s.peer) (server_ended env ev.identity_remote s)
          (client_ended env s) (λ _. server_ended-IsRegistry ev.identity_remote s r)
          (λ _. client_ended-IsRegistry s r))
        (λ handled t h. acknowledge-IsRegistry handled ev.connection t h)

  on_arrived-IsRegistry :
      (ev : StatusChanged) (s : Session W)
      → IsRegistry s.peer
      → EndsRegistry env (on_arrived env ev s)
  unfolding on_arrived accept_handle
  on_arrived-IsRegistry ev s r = elim (Bool-cases (is_server s.peer)) [
    | inr client ↦ rw client r
    | inl server ↦
        let w = (env.accept_connection ev.connection s.world).1 in
        elim (Bool-cases (is_ok (env.accept_connection ev.connection s.world).0)) [
          | inl accepted ↦
              Ends-of_eq KeepsRegistry (on_arrived env ev s) tt (record s { world = w })
                (ground (arith, up)) r
          | inr refused ↦
              let (w', e) =
                close_handle_total ev.connection app_exception_generic (record s { world = w }) in
              Ends-of_eq KeepsRegistry (on_arrived env ev s) tt (record s { world = w' })
                (ground (arith, up, e)) r
        ]
  ]

  on_accepted-IsRegistry :
      (ev : StatusChanged) (s : Session W)
      → ev.identity_remote ≢ env.own_steam_id
      → IsRegistry s.peer
      → EndsRegistry env (on_accepted env ev s)
  unfolding on_accepted
  on_accepted-IsRegistry ev s other r = elim (Bool-cases (is_server s.peer)) [
    | inl server ↦
        rw server (add_connection-IsRegistry env ev.identity_remote ev.connection s.peer r)
    | inr client ↦ rw client (
        Ends-if KeepsRegistry (is_connected s.peer.connection_status) (some (tt, s))
          (client_accepted env ev s) (λ _. r) (λ _. client_accepted-IsRegistry ev s other r))
  ]

  -- With Steam there, on a registry, and for a report that is not on a connection to the user
  -- itself, the status callback does not crash and leaves a registry, on every branch.
  pub network_connection_status_changed-IsRegistry :
      (ev : StatusChanged) (s : Session W)
      → ev.identity_remote ≢ env.own_steam_id
      → IsRegistry s.peer
      → EndsRegistry env (network_connection_status_changed env ev s)
  unfolding network_connection_status_changed
  network_connection_status_changed-IsRegistry ev s other r =
      let choose = Ends-if {W = W} {A = Unit {0}} KeepsRegistry in
      choose (is_ignored env ev s.peer) _ _ (λ _. r)
        (λ _.
          choose (has_arrived ev) _ _ (λ _. on_arrived-IsRegistry ev s r)
            (λ _.
              choose (was_accepted ev) _ _ (λ _. on_accepted-IsRegistry ev s other r)
                (λ _.
                  choose (was_closed_by_peer ev) _ _ (λ _. on_ended-IsRegistry ev s r)
                    (λ _. choose (was_lost ev) _ _ (λ _. on_ended-IsRegistry ev s r) (λ _. r)))))
