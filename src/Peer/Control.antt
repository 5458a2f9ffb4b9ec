-- ===== src/Peer/Control.antt =====
-- The control fields of a peer: its mode, status and id. What the methods keep of them.
use godot_godaemon_multiplay.Prelude.{
  ℕ, ◌≡◌, refl, ◌∙◌, Bool, true, false, Option, none, some, List, [], ◌∷◌, arith, if◌then◌else◌,
  Option-cases, inl, inr,
}
use godot_godaemon_multiplay.HashMap.{HashMap}
use godot_godaemon_multiplay.Godot.{Error, ok}
use godot_godaemon_multiplay.Steam.{Env}
use godot_godaemon_multiplay.Steam.Types.{Message}
use godot_godaemon_multiplay.Connection.{SteamConnection, send_peer, send}
use godot_godaemon_multiplay.Packet.{SteamPacketPeer}
use godot_godaemon_multiplay.Peer.State.{SteamMultiplayerPeer}
use godot_godaemon_multiplay.Peer.Action.{Session, Action, on_connection}
use godot_godaemon_multiplay.Peer.Registry.{set_steam_id_peer, assign_peer_id}
use godot_godaemon_multiplay.Peer.Packets.{put_packet, put_packet_send, broadcast_loop}
use godot_godaemon_multiplay.Peer.Poll.{
  process_message, take_peer_id, answer_if_server, announce, reply_ping, answer_ping, process_ping,
  process_one, process_all, poll_connection, poll_loop, poll,
}

abbrev pub SameControl : SteamMultiplayerPeer → SteamMultiplayerPeer → Type 0
SameControl p q =
    (q.active_mode ≡ p.active_mode)
    × (q.connection_status ≡ p.connection_status)
    × (q.unique_id ≡ p.unique_id)
    × (q.is_loopback_client ≡ p.is_loopback_client)

pub SameControl-trans :
    (p q r : SteamMultiplayerPeer) → SameControl p q → SameControl q r → SameControl p r
SameControl-trans p q r (a, b, c, d) (a', b', c', d') = (a' ∙ a, b' ∙ b, c' ∙ c, d' ∙ d)

module _ {W A : Type 0} where
  -- Partial correctness: if the action does not crash, its result and session satisfy a condition.
  abbrev pub Whenever : Option (A × Session W) → (A → Session W → Type 0) → Type 0
  Whenever none Q = Unit {0}
  Whenever (some (a, t)) Q = Q a t

  pub Whenever-mono :
      (Q R : A → Session W → Type 0) (r : Option (A × Session W))
      → Whenever r Q
      → ((a : A) (t : Session W) → Q a t → R a t)
      → Whenever r R
  Whenever-mono Q R none h k = tt
  Whenever-mono Q R (some (a, t)) h k = k a t h

  -- The control fields stay.
  abbrev pub Keeps : Session W → Option (A × Session W) → Type 0
  Keeps s r = Whenever r (λ _ t. SameControl s.peer t.peer)

  pub Keeps-if :
      (s : Session W) (b : Bool) (x y : Option (A × Session W))
      → Keeps s x
      → Keeps s y
      → Keeps s (if b then x else y)
  Keeps-if s true x y hx hy = hx
  Keeps-if s false x y hx hy = hy

module _ {W A B : Type 0} where
  pub Keeps-bind :
      (s : Session W) (r : Option (A × Session W)) (f : A → Action W B)
      → Keeps s r
      → ((a : A) (t : Session W) → Keeps t (f a t))
      → Keeps s (elim r [ none ↦ none | some (a, t) ↦ f a t ])
  Keeps-bind s none f h k = tt
  Keeps-bind s (some (a, t)) f h k =
      Whenever-mono (λ _ u. SameControl t.peer u.peer) (λ _ u. SameControl s.peer u.peer) (f a t)
        (k a t) (λ _ u. SameControl-trans s.peer t.peer u.peer h)

module _ {W A : Type 0} where
  pub on_connection-Keeps :
      (a : ℕ) (f : SteamConnection → W → Option (A × SteamConnection × W)) (s : Session W)
      → Keeps s (on_connection a f s)
  on_connection-Keeps a f s = ground arith

module _ {W : Type 0} (env : Env W) where
  process_message-Keeps :
      (msg : Message) (p : SteamMultiplayerPeer)
      → SameControl p (process_message env.constants msg p)
  unfolding process_message
  process_message-Keeps msg p = ground arith

  answer_if_server-Keeps : (a : ℕ) (s : Session W) → Keeps s (answer_if_server env a s)
  unfolding answer_if_server
  answer_if_server-Keeps a s =
      Keeps-if s _ _ (some (tt, s))
        (Keeps-bind s _ (λ _ t. some (tt, t))
          (on_connection-Keeps a (send_peer env s.peer.unique_id) s)
          (λ _ t. (refl, refl, refl, refl)))
        (refl, refl, refl, refl)

  reply_ping-Keeps : (a : ℕ) (s : Session W) → Keeps s (reply_ping env a s)
  unfolding reply_ping announce
  reply_ping-Keeps a s =
      Keeps-bind s (answer_if_server env a s) (λ _ t. announce env a t) (answer_if_server-Keeps a s)
        (λ _ t. ground arith)

  take_peer_id-SameControl :
      (a steam_id peer_id : ℕ) (p q : SteamMultiplayerPeer)
      → take_peer_id env a steam_id peer_id p ≡ some q
      → SameControl p q
  unfolding take_peer_id set_steam_id_peer assign_peer_id
  take_peer_id-SameControl a steam_id peer_id p q h = ground arith

  answer_ping-Keeps :
      (a steam_id peer_id : ℕ) (s : Session W) → Keeps s (answer_ping env a steam_id peer_id s)
  unfolding answer_ping
  answer_ping-Keeps a steam_id peer_id s =
      elim (Option-cases (take_peer_id env a steam_id peer_id s.peer)) [
        | inl crash ↦ rw (answer_ping, crash) tt
        | inr (q, e) ↦
            rw (answer_ping, e)
              (Whenever-mono _ (λ _ u. SameControl s.peer u.peer) _
                (reply_ping-Keeps a (record s { peer = q }))
                (λ _ u.
                  SameControl-trans s.peer q u.peer
                    (take_peer_id-SameControl a steam_id peer_id s.peer q e)))
      ]

  process_ping-Keeps : (msg : Message) (s : Session W) → Keeps s (process_ping env msg s)
  unfolding process_ping
  process_ping-Keeps msg s = grind (arith, answer_ping-Keeps)

  pub process_one-Keeps : (msg : Message) (s : Session W) → Keeps s (process_one env msg s)
  unfolding process_one
  process_one-Keeps msg s =
      ground (arith, process_ping-Keeps msg s, process_message-Keeps msg s.peer)

  process_all-Keeps : (msgs : List Message) (s : Session W) → Keeps s (process_all env msgs s)
  unfolding process_all
  process_all-Keeps [] s = (refl, refl, refl, refl)
  process_all-Keeps (msg ∷ rest) s =
      Keeps-bind s (process_one env msg s) (λ _ t. process_all env rest t) (process_one-Keeps msg s)
        (λ _ t. process_all-Keeps rest t)

  poll_connection-Keeps : (a : ℕ) (s : Session W) → Keeps s (poll_connection env a s)
  unfolding poll_connection
  poll_connection-Keeps a s = grind (arith, process_all-Keeps)

  poll_loop-Keeps : (m : HashMap ℕ) (s : Session W) → Keeps s (poll_loop env m s)
  unfolding poll_loop
  poll_loop-Keeps [] s = (refl, refl, refl, refl)
  poll_loop-Keeps ((k, a) ∷ rest) s =
      Keeps-bind s (poll_connection env a s) (λ _ t. poll_loop env rest t)
        (poll_connection-Keeps a s) (λ _ t. poll_loop-Keeps rest t)

  pub poll-Keeps : (s : Session W) → Keeps s (poll env s)
  unfolding poll
  poll-Keeps s = ground (arith, poll_loop-Keeps s.peer.connections_by_steam_id64 s)

  -- One round of the broadcast: the value to return so far stays, or is the error of the send.
  Keeps-by_error :
      (s : Session W) (r : Option (Error × Session W)) (f : Error → Action W Error) (e : Error)
      → Keeps s r
      → ((x : Error) (t : Session W) → Keeps t (f x t))
      → Keeps s
          (elim r [ none ↦ none | some (ok, t) ↦ f e t | some (error_code, t) ↦ f error_code t ])
  Keeps-by_error s none f e h k = tt
  Keeps-by_error s (some (ok, t)) f e h k =
      Keeps-bind s (some (ok, t)) (λ _ u. f e u) h (λ _ u. k e u)
  Keeps-by_error s (some (error_code, t)) f e h k =
      Keeps-bind s (some (error_code, t)) (λ _ u. f error_code u) h (λ _ u. k error_code u)

  broadcast_loop-Keeps :
      (m : HashMap ℕ) (packet : SteamPacketPeer) (e : Error) (s : Session W)
      → Keeps s (broadcast_loop env m packet e s)
  unfolding broadcast_loop
  broadcast_loop-Keeps [] packet e s = (refl, refl, refl, refl)
  broadcast_loop-Keeps ((k, a) ∷ rest) packet e s =
      Keeps-by_error s (on_connection a (send env packet) s) (broadcast_loop env rest packet) e
        (on_connection-Keeps a (send env packet) s) (broadcast_loop-Keeps rest packet)

  pub put_packet-Keeps : (buffer : List ℕ) (s : Session W) → Keeps s (put_packet env buffer s)
  unfolding put_packet put_packet_send
  put_packet-Keeps buffer s = grind (arith, broadcast_loop-Keeps, on_connection-Keeps)

-- The client's session after `create_loopback_client`.
unfoldable pub client_after :
    {W : Type 0}
    → Option (Error × Option SteamMultiplayerPeer × Session W)
    → Option (Unit {0} × Session W)
client_after none = none
client_after (some (e, h, t)) = some (tt, t)
