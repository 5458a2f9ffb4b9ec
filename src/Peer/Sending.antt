-- ===== src/Peer/Sending.antt =====
-- `_put_packet`, by its guards and behind them.
use godot_godaemon_multiplay.Prelude.{
  ltb, length, if◌then◌else◌, ℕ, ◌≡◌, refl, sym, ap, subst, ◌∙◌, ◌≢◌, ◌⊎◌, ◌↔◌, inl, inr, true,
  false, none, some, List, [], ◌∷◌, arith, ◌==◌, ==_iff, Bool-cases, Option-cases, abs32,
  is_negative,
}
use godot_godaemon_multiplay.HashMap.{HashMap, lookup, has}
use godot_godaemon_multiplay.Godot.{Error, ok, is_connected}
use godot_godaemon_multiplay.Steam.{Env}
use godot_godaemon_multiplay.Packet.{SteamPacketPeer, new_packet}
use godot_godaemon_multiplay.Connection.{SteamConnection, send}
use godot_godaemon_multiplay.Connection.Drain.{send-Drains}
use godot_godaemon_multiplay.Peer.State.{
  SteamMultiplayerPeer, mode_client, object_at, write_object, is_active,
}
use godot_godaemon_multiplay.Peer.Action.{Session, on_connection}
use godot_godaemon_multiplay.Peer.Registry.{get_connection_by_peer}
use godot_godaemon_multiplay.Peer.Settings.{get_steam_transfer_flag}
use godot_godaemon_multiplay.Peer.Packets.{
  broadcast_loop, put_packet_error, put_packet_send, put_packet,
}
use godot_godaemon_multiplay.Peer.Refs.{Fits, Fits-lookup, Fits-store, Objects}
use godot_godaemon_multiplay.Peer.Ends.{Ends, Ends-mono, Ends-of_eq, on_connection_eq}
use godot_godaemon_multiplay.Peer.Invariant.{
  IsRegistry, HasSteamId, HasPeerId, write_object-IsRegistry,
}

-- Only the connections behind the `Ref`s have changed.
abbrev pub SameButObjects : SteamMultiplayerPeer → SteamMultiplayerPeer → Type 0
SameButObjects p q = (objects : Objects) × (q ≡ record p { connection_objects = objects })

pub SameButObjects-trans :
    (p q r : SteamMultiplayerPeer) → SameButObjects p q → SameButObjects q r → SameButObjects p r
SameButObjects-trans p q r (o, e) (o', e') =
    (o', e' ∙ ap (λ (x : SteamMultiplayerPeer). record x { connection_objects = o' }) e)

module _ {W : Type 0} (env : Env W) (up : env.sockets ≡ true) where
  -- The registry is kept, and nothing but connections has changed.
  abbrev pub Delivers : Session W → Error → Session W → Type 0
  Delivers s e t = (e ≡ ok) × IsRegistry t.peer × SameButObjects s.peer t.peer

  -- `send` on the connection behind a `Ref` succeeds and keeps the connection's two ids.
  pub on_connection-send :
      (a : ℕ) (packet : SteamPacketPeer) (c : SteamConnection) (s : Session W)
      → object_at a s.peer ≡ some c
      → (c' : SteamConnection) × (w : W) × (on_connection a (send env packet) s
          ≡ some (ok, record { peer = write_object a c' s.peer; world = w }))
        × (c'.steam_id ≡ c.steam_id)
        × (c'.peer_id ≡ c.peer_id)
  on_connection-send a packet c s there =
      let (rest, w, e, d) = send-Drains env up packet c s.world in
      let c' = record c { pending_retry_packets = rest } in
      (c', w, on_connection_eq a (send env packet) s c c' ok w there e, refl, refl)

  one-Delivers :
      (a : ℕ) (packet : SteamPacketPeer) (c : SteamConnection) (s : Session W)
      → object_at a s.peer ≡ some c
      → IsRegistry s.peer
      → Ends (on_connection a (send env packet) s) (Delivers s)
  one-Delivers a packet c s there r =
      let (c', w, e, id, peer) = on_connection-send a packet c s there in
      Ends-of_eq (Delivers s) _ ok _ e
        (refl, write_object-IsRegistry a c c' s.peer there id peer r, (_, refl))

  broadcast_loop-Delivers :
      (m : HashMap ℕ) (packet : SteamPacketPeer) (s : Session W)
      → Fits HasSteamId m s.peer.connection_objects
      → IsRegistry s.peer
      → Ends (broadcast_loop env m packet ok s) (Delivers s)
  unfolding broadcast_loop
  broadcast_loop-Delivers [] packet s fits r = (refl, r, (s.peer.connection_objects, refl))
  broadcast_loop-Delivers ((k, a) ∷ m) packet s ((c, there, fit), fits) r =
      let (c', w, e, id, peer) = on_connection-send a packet c s there in
      let t : Session W = record { peer = write_object a c' s.peer; world = w } in
      let kept =
        Fits-store HasSteamId m s.peer.connection_objects a c c' there (λ j h. id ∙ h) fits in
      let registry = write_object-IsRegistry a c c' s.peer there id peer r in
      subst
        (λ x.
          Ends
            (elim x [
              | none ↦ none
              | some (ok, u) ↦ broadcast_loop env m packet ok u
              | some (error_code, u) ↦ broadcast_loop env m packet error_code u
            ])
            (Delivers s))
        (sym e)
        (Ends-mono (Delivers t) (Delivers s) _ (broadcast_loop-Delivers m packet t kept registry)
          λ x u (result, good, same).
            (result, good, SameButObjects-trans s.peer t.peer u.peer (_, refl) same))

  put_packet_send-Delivers :
      (buffer : List ℕ) (s : Session W)
      → IsRegistry s.peer
      → (s.peer.target_peer ≡ 0) ⊎ (has s.peer.target_peer s.peer.peer_id_to_steam_id ≡ true)
      → Ends (put_packet_send env buffer s) (Delivers s)
  unfolding put_packet_send get_connection_by_peer has
  put_packet_send-Delivers buffer s r (inl all) =
      rw ((==_iff s.peer.target_peer 0).1 all)
        (broadcast_loop-Delivers s.peer.connections_by_steam_id64 _ s r.by_steam_id r)
  put_packet_send-Delivers buffer s r (inr known) = elim (Bool-cases (s.peer.target_peer == 0)) [
    | inl all ↦
        rw all (broadcast_loop-Delivers s.peer.connections_by_steam_id64 _ s r.by_steam_id r)
    | inr one ↦ elim (Option-cases (lookup s.peer.target_peer s.peer.peer_id_to_steam_id)) [
      | inl missing ↦ absurd (ground arith)
      | inr (a, found) ↦
          let (c, there, fit) = Fits-lookup HasPeerId _ _ s.peer.target_peer a found r.by_peer_id in
          rw (one, found) (one-Delivers a _ c s there r)
    ]
  ]

-- The guards of `_put_packet` let a call through exactly if the peer is active and connected, the
-- target is everybody or a known peer up to sign, and a client knows the server.
pub put_packet_error-ok :
    {W : Type 0} (env : Env W) (p : SteamMultiplayerPeer)
    → (put_packet_error env p ≡ ok) ↔ (
        (is_active p ≡ true)
        × (is_connected p.connection_status ≡ true)
        × ((p.target_peer ≡ 0) ⊎ (has (abs32 p.target_peer) p.peer_id_to_steam_id ≡ true))
        × (p.active_mode ≡ mode_client → has 1 p.peer_id_to_steam_id ≡ true))
unfolding put_packet_error
put_packet_error-ok env p = ground arith

module _ {W : Type 0} (env : Env W) where
  -- A call that a guard refuses returns that guard's error and changes nothing.
  pub put_packet_refused :
      (buffer : List ℕ) (s : Session W)
      → put_packet_error env s.peer ≢ ok
      → put_packet env buffer s ≡ some (put_packet_error env s.peer, s)
  unfolding put_packet
  put_packet_refused buffer s bad = ground arith

  -- With Steam there, behind the guards, on a registry and for a target that is not negative,
  -- `_put_packet` does not crash, returns `OK`, keeps the registry and changes nothing of the
  -- peer but its connections.
  pub put_packet-Delivers :
      (buffer : List ℕ) (s : Session W)
      → env.sockets ≡ true
      → IsRegistry s.peer
      → is_negative s.peer.target_peer ≡ false
      → put_packet_error env s.peer ≡ ok
      → Ends
          (put_packet env buffer s)
          (λ e t. (e ≡ ok) × IsRegistry t.peer × SameButObjects s.peer t.peer)
  unfolding put_packet
  put_packet-Delivers buffer s up r nonneg good =
      rw (good, put_packet)
        (put_packet_send-Delivers env up buffer s r
          (ground (arith, (put_packet_error-ok env s.peer).0 good)))

  -- A negative target -n, by which Godot means everybody but n, passes the guards where peer n
  -- is known and the rest is in order, and then crashes where no peer is known under -n:
  -- `_put_packet` looks for a connection under -n itself.
  pub put_packet_negative_target :
      (buffer : List ℕ) (s : Session W)
      → put_packet_error env s.peer ≡ ok
      → is_negative s.peer.target_peer ≡ true
      → has s.peer.target_peer s.peer.peer_id_to_steam_id ≡ false
      → put_packet env buffer s ≡ none
  unfolding put_packet put_packet_send get_connection_by_peer has
  put_packet_negative_target buffer s good negative missing =
      ground (arith, (put_packet_error-ok env s.peer).0 good)

  put_packet_send_oversize :
      (buffer other : List ℕ) (s : Session W)
      → ltb env.max_steam_packet_size (length buffer) ≡ true
      → ltb env.max_steam_packet_size (length other) ≡ true
      → put_packet_send env buffer s ≡ put_packet_send env other s
  unfolding put_packet_send
  put_packet_send_oversize buffer other s large large' =
      let flag = get_steam_transfer_flag env.constants s.peer in
      let same : new_packet env.constants buffer flag ≡ new_packet env.constants other flag =
        unfold new_packet in (rw (large, large') refl) in
      ap
        (λ packet.
          if s.peer.target_peer == 0
          then broadcast_loop env s.peer.connections_by_steam_id64 packet ok s
          else elim (get_connection_by_peer s.peer.target_peer s.peer) [
            | none ↦ none
            | some a ↦ on_connection a (send env packet) s
          ])
        same

  -- With Steam there, behind the guards, on a registry and for a target that is not negative,
  -- `_put_packet` loses a buffer over Steam's size limit and returns `OK`: what it does is the
  -- same for any two such buffers.
  pub put_packet_oversize :
      (buffer other : List ℕ) (s : Session W)
      → env.sockets ≡ true
      → IsRegistry s.peer
      → is_negative s.peer.target_peer ≡ false
      → put_packet_error env s.peer ≡ ok
      → ltb env.max_steam_packet_size (length buffer) ≡ true
      → ltb env.max_steam_packet_size (length other) ≡ true
      → (put_packet env buffer s ≡ put_packet env other s)
        × Ends (put_packet env buffer s) (λ e t. e ≡ ok)
  unfolding put_packet
  put_packet_oversize buffer other s up r nonneg good large large' = (
    rw (good, put_packet) (put_packet_send_oversize buffer other s large large'),
    Ends-mono _ (λ e t. e ≡ ok) _ (put_packet-Delivers buffer s up r nonneg good) (λ e t d. d.0),
  )
