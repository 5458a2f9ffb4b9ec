-- ===== src/Peer/Polling.antt =====
-- `_poll`, `_process_message` and `_process_ping` on a registry.
use godot_godaemon_multiplay.Prelude.{
  ℕ, ◌≡◌, refl, sym, ap, subst, ◌∙◌, ◌≢◌, inl, inr, true, Option, none, some, List, [], ◌∷◌, arith,
  ◌==◌, Bool-cases, Option-cases, minus_one, length, ltb, u32_of_bytes,
}
use godot_godaemon_multiplay.HashMap.{HashMap, lookup, has}
use godot_godaemon_multiplay.Godot.{peer_connected}
use godot_godaemon_multiplay.Steam.{Env}
use godot_godaemon_multiplay.Steam.Types.{Message}
use godot_godaemon_multiplay.Connection.{SteamConnection}
use godot_godaemon_multiplay.Peer.State.{SteamMultiplayerPeer, object_at, is_active, emit_signal}
use godot_godaemon_multiplay.Peer.Action.{Session}
use godot_godaemon_multiplay.Peer.Settings.{is_server}
use godot_godaemon_multiplay.Peer.Registry.{connection_of, get_peer_id_from_steam64}
use godot_godaemon_multiplay.Peer.Poll.{
  process_message, answer_if_server, announce, reply_ping, answer_ping, process_ping, process_one,
  process_all, poll_connection, poll_loop, poll,
}
use godot_godaemon_multiplay.Peer.Refs.{Fits, Fits-lookup}
use godot_godaemon_multiplay.Peer.Ends.{Ends, Ends-mono, Ends-of_eq, Ends-bind, Ends-some}
use godot_godaemon_multiplay.Peer.Invariant.{IsRegistry, HasSteamId}
use godot_godaemon_multiplay.Peer.Receiving.{
  Handled, Handled-refl, Handled-trans, Fits-KeepsUsers, take_peer_id-Handled, send_peer-Handled,
}

-- Every message is from a user with an entry in the map.
abbrev pub AreFrom : HashMap ℕ → List Message → Type 0
AreFrom m [] = Unit {0}
AreFrom m (msg ∷ rest) = (has msg.identity_peer m ≡ true) × AreFrom m rest

module _ {W : Type 0} (env : Env W) (up : env.sockets ≡ true) where
  abbrev pub EndsHandled : Session W → Option (Unit {0} × Session W) → Type 0
  EndsHandled s r = Ends r (λ _ t. Handled s t)

  EndsHandled-after :
      (s t : Session W) (r : Option (Unit {0} × Session W))
      → Handled s t
      → EndsHandled t r
      → EndsHandled s r
  EndsHandled-after s t r h k =
      Ends-mono (λ _ u. Handled t u) (λ _ u. Handled s u) r k (λ _ u. Handled-trans s t u h)

  announce-Handled :
      (a : ℕ) (c : SteamConnection) (s : Session W)
      → object_at a s.peer ≡ some c
      → IsRegistry s.peer
      → EndsHandled s (announce env a s)
  announce-Handled a c s there r =
      Ends-of_eq (λ _ t. Handled s t) _ tt
        (record s { peer = emit_signal (peer_connected c.peer_id) s.peer })
        (unfold announce in ground (arith, there))
        (record {
          registry = record {
            by_steam_id = r.by_steam_id;
            by_peer_id = r.by_peer_id;
            loopback = r.loopback;
          };
          users = λ b d found. (d, found, refl);
          connections = refl;
        })

  answer_if_server-Handled :
      (a : ℕ) (c : SteamConnection) (s : Session W)
      → object_at a s.peer ≡ some c
      → IsRegistry s.peer
      → EndsHandled s (answer_if_server env a s)
  unfolding answer_if_server
  answer_if_server-Handled a c s there r = elim (Bool-cases (is_server s.peer)) [
    | inl server ↦
        let (e, t, same, h) =
          Ends-some (λ _ t. Handled s t) _
            (send_peer-Handled env up a s.peer.unique_id c s there r) in
        Ends-of_eq (λ _ t. Handled s t) _ tt t (ground (arith, same)) h
    | inr client ↦ Ends-of_eq (λ _ t. Handled s t) _ tt s (ground arith) (Handled-refl s r)
  ]

  reply_ping-Handled :
      (a : ℕ) (c : SteamConnection) (s : Session W)
      → object_at a s.peer ≡ some c
      → IsRegistry s.peer
      → EndsHandled s (reply_ping env a s)
  unfolding reply_ping
  reply_ping-Handled a c s there r =
      Ends-bind (λ _ t. Handled s t) (λ _ t. Handled s t) _ (λ _ t. announce env a t)
        (answer_if_server-Handled a c s there r)
        λ _ t h.
          let (d, found, same) = h.users a c there in
          EndsHandled-after s t _ h (announce-Handled a d t found h.registry)

  answer_ping-Handled :
      (a steam_id peer_id : ℕ) (c : SteamConnection) (s : Session W)
      → IsRegistry s.peer
      → lookup steam_id s.peer.connections_by_steam_id64 ≡ some a
      → object_at a s.peer ≡ some c
      → peer_id ≢ minus_one
      → EndsHandled s (answer_ping env a steam_id peer_id s)
  unfolding answer_ping
  answer_ping-Handled a steam_id peer_id c s r entry there real =
      let (q, e, h) = take_peer_id-Handled env a steam_id peer_id c s r entry there real in
      let t : Session W = record s { peer = q } in
      let (d, found, same) = h.users a c there in
      subst
        (λ x.
          EndsHandled s
            (elim x [ none ↦ none | some p ↦ reply_ping env a (record s { peer = p }) ]))
        (sym e) (EndsHandled-after s t _ h (reply_ping-Handled a d t found h.registry))

  Ends-same :
      (s : Session W) (r r' : Option (Unit {0} × Session W))
      → r ≡ r'
      → EndsHandled s r'
      → EndsHandled s r
  Ends-same s r r' e h = subst (EndsHandled s) (sym e) h

  process_ping-Handled :
      (msg : Message) (s : Session W)
      → IsRegistry s.peer
      → has msg.identity_peer s.peer.connections_by_steam_id64 ≡ true
      → EndsHandled s (process_ping env msg s)
  unfolding process_ping has
  process_ping-Handled msg s r known = elim (Bool-cases (length msg.payload == 4)) [
    | inr wrong ↦ Ends-same s _ (some (tt, s)) (ground arith) (Handled-refl s r)
    | inl sized ↦ elim (Option-cases (u32_of_bytes msg.payload)) [
      | inl unread ↦ Ends-same s _ (some (tt, s)) (ground arith) (Handled-refl s r)
      | inr (peer_id, reading) ↦
          elim (Option-cases (lookup msg.identity_peer s.peer.connections_by_steam_id64)) [
            | inl missing ↦ absurd (ground arith)
            | inr (a, entry) ↦ elim (Bool-cases (peer_id == minus_one)) [
              | inl unset ↦ Ends-same s _ (some (tt, s)) (ground arith) (Handled-refl s r)
              | inr real ↦
                  let (c, there, fit) =
                    Fits-lookup HasSteamId _ _ msg.identity_peer a entry r.by_steam_id in
                  Ends-same s _ (answer_ping env a msg.identity_peer peer_id s) (ground arith) (
                    answer_ping-Handled a msg.identity_peer peer_id c s r entry there
                      (ground arith))
            ]
          ]
    ]
  ]

  process_message-Handled :
      (msg : Message) (s : Session W)
      → IsRegistry s.peer
      → Handled s (record s { peer = process_message env.constants msg s.peer })
  unfolding process_message
  process_message-Handled msg s r =
      elim (Bool-cases (ltb env.max_steam_packet_size (length msg.payload))) [
        | inl large ↦ rw large (Handled-refl s r)
        | inr fine ↦ rw fine (record {
          registry = record {
            by_steam_id = r.by_steam_id;
            by_peer_id = r.by_peer_id;
            loopback = r.loopback;
          };
          users = λ b d found. (d, found, refl);
          connections = refl;
        })
      ]

  get_peer_id_found :
      (steam_id : ℕ) (p : SteamMultiplayerPeer)
      → IsRegistry p
      → (id : ℕ) × (get_peer_id_from_steam64 env steam_id p ≡ some id)
  unfolding get_peer_id_from_steam64 connection_of has
  get_peer_id_found steam_id p r = elim (Bool-cases (steam_id == env.own_steam_id)) [
    | inl own ↦ (p.unique_id, ground arith)
    | inr other ↦ elim (Option-cases (lookup steam_id p.connections_by_steam_id64)) [
      | inl missing ↦ (minus_one, ground arith)
      | inr (a, entry) ↦
          let (c, there, fit) = Fits-lookup HasSteamId _ _ steam_id a entry r.by_steam_id in
          (c.peer_id, ground arith)
    ]
  ]

  process_one-Handled :
      (msg : Message) (s : Session W)
      → IsRegistry s.peer
      → has msg.identity_peer s.peer.connections_by_steam_id64 ≡ true
      → EndsHandled s (process_one env msg s)
  unfolding process_one
  process_one-Handled msg s r known =
      let (id, e) = get_peer_id_found msg.identity_peer s.peer r in
      elim (Bool-cases (id == minus_one)) [
        | inl unset ↦
            Ends-same s _ (process_ping env msg s) (ground (arith, e))
              (process_ping-Handled msg s r known)
        | inr real ↦
            Ends-same s _ (some (tt, record s { peer = process_message env.constants msg s.peer }))
              (ground (arith, e)) (process_message-Handled msg s r)
      ]

  process_all-Handled :
      (m : HashMap ℕ) (msgs : List Message) (s : Session W)
      → IsRegistry s.peer
      → s.peer.connections_by_steam_id64 ≡ m
      → AreFrom m msgs
      → EndsHandled s (process_all env msgs s)
  unfolding process_all
  process_all-Handled m [] s r e from = Handled-refl s r
  process_all-Handled m (msg ∷ rest) s r e (first, others) =
      Ends-bind (λ _ t. Handled s t) (λ _ t. Handled s t) _ (λ _ t. process_all env rest t)
        (process_one-Handled msg s r (ground (arith, e, first)))
        λ _ t h.
          EndsHandled-after s t _ h
            (process_all-Handled m rest t h.registry (h.connections ∙ e) others)

  -- What Steam hands out on any connection is from users with an entry in the map.
  abbrev pub ReceivesFrom : HashMap ℕ → Type 0
  ReceivesFrom m =
      (handle : ℕ) (w : W) → AreFrom m (env.receive_messages_on_connection handle 255 w).0

  -- Along the loop of `_poll` from a session, what Steam hands out on each connection, asked in the
  -- world of that moment, is from users with an entry in the map.
  abbrev pub PollsFrom : HashMap ℕ → HashMap ℕ → Session W → Type 0
  PollsFrom m [] s = Unit {0}
  PollsFrom m ((steam_id, a) ∷ rest) s =
      ((c : SteamConnection)
        → object_at a s.peer ≡ some c
        → AreFrom m (env.receive_messages_on_connection c.steam_connection 255 s.world).0)
      × ((t : Session W) → poll_connection env a s ≡ some (tt, t) → PollsFrom m rest t)

  ReceivesFrom-PollsFrom :
      (m rest : HashMap ℕ) (s : Session W) → ReceivesFrom m → PollsFrom m rest s
  ReceivesFrom-PollsFrom m [] s from = tt
  ReceivesFrom-PollsFrom m ((steam_id, a) ∷ rest) s from =
      (λ c _. from c.steam_connection s.world, λ t _. ReceivesFrom-PollsFrom m rest t from)

  poll_connection-Handled :
      (m : HashMap ℕ) (a : ℕ) (c : SteamConnection) (s : Session W)
      → IsRegistry s.peer
      → s.peer.connections_by_steam_id64 ≡ m
      → AreFrom m (env.receive_messages_on_connection c.steam_connection 255 s.world).0
      → object_at a s.peer ≡ some c
      → EndsHandled s (poll_connection env a s)
  unfolding poll_connection
  poll_connection-Handled m a c s r e from there =
      let (messages, w) = env.receive_messages_on_connection c.steam_connection 255 s.world in
      let t : Session W = record s { world = w } in
      Ends-same s _ (process_all env messages t) (ground (arith, there, up)) (
        EndsHandled-after s t _
          (record { registry = r; users = λ b d found. (d, found, refl); connections = refl })
          (process_all-Handled m messages t r e from))

  poll_loop-Handled :
      (m rest : HashMap ℕ) (s : Session W)
      → IsRegistry s.peer
      → s.peer.connections_by_steam_id64 ≡ m
      → PollsFrom m rest s
      → Fits HasSteamId rest s.peer.connection_objects
      → EndsHandled s (poll_loop env rest s)
  unfolding poll_loop
  poll_loop-Handled m [] s r e from fits = Handled-refl s r
  poll_loop-Handled m ((k, a) ∷ rest) s r e (from, later) ((c, there, fit), fits) =
      let (_, t, polled, h) =
        Ends-some (λ _ t. Handled s t) _
          (poll_connection-Handled m a c s r e (from c there) there) in
      Ends-same s _ (poll_loop env rest t) (ground (arith, polled)) (
        EndsHandled-after s t _ h (
          poll_loop-Handled m rest t h.registry (h.connections ∙ e) (later t polled) (
            Fits-KeepsUsers rest s.peer.connection_objects t.peer.connection_objects h.users fits)))

  -- `_poll` where each message is from a user with an entry when it is handed out.
  pub poll-Handled_at_hand :
      (s : Session W)
      → IsRegistry s.peer
      → PollsFrom s.peer.connections_by_steam_id64 s.peer.connections_by_steam_id64 s
      → EndsHandled s (poll env s)
  unfolding poll
  poll-Handled_at_hand s r from = elim (Bool-cases (is_active s.peer)) [
    | inr idle ↦ Ends-same s _ (some (tt, s)) (ground arith) (Handled-refl s r)
    | inl active ↦
        let (_, t, e, h) =
          Ends-some (λ _ t. Handled s t) _
            (poll_loop-Handled s.peer.connections_by_steam_id64 s.peer.connections_by_steam_id64 s r
              refl from r.by_steam_id) in
        Ends-same s _ (some (tt, t)) (ground (arith, e, ap length h.connections)) h
  ]

  -- With Steam there, on a registry, and where Steam hands out only messages from users with an
  -- entry, `_poll` does not crash: it leaves a registry with the same map of connections, and
  -- every object that was there is still there with the same user.
  pub poll-Handled :
      (s : Session W)
      → IsRegistry s.peer
      → ReceivesFrom s.peer.connections_by_steam_id64
      → EndsHandled s (poll env s)
  poll-Handled s r from =
      poll-Handled_at_hand s r (ReceivesFrom-PollsFrom _ s.peer.connections_by_steam_id64 s from)
