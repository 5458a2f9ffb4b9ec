-- ===== src/Connection/Drain.antt =====
-- What `_send_pending` does with the queue, against a description by its attempts.
use godot_godaemon_multiplay.Prelude.{
  ℕ, ◌≡◌, refl, ap, ◌∙◌, ◌⊎◌, inl, inr, Bool, true, false, some, List, [], ◌∷◌, ◌++◌, arith,
  Bool-cases,
}
use godot_godaemon_multiplay.Godot.{Error}
use godot_godaemon_multiplay.EResult.{EResult, is_ok}
use godot_godaemon_multiplay.Steam.{Env}
use godot_godaemon_multiplay.Packet.{SteamPacketPeer}
use godot_godaemon_multiplay.Connection.{
  SteamConnection, has_reliable_flag, raw_send, send_pending_loop, send_pending, add_packet, send,
}

module _ {W : Type 0} (env : Env W) (handle : ℕ) where
  -- One call of `SendMessageToConnection`: its result and the world after it.
  abbrev pub attempt : SteamPacketPeer → W → EResult × W
  attempt p w = env.send_message_to_connection handle p.bytes p.transfer_mode w

  -- The world after one attempt for each packet, in order.
  abbrev pub after_attempts : List SteamPacketPeer → W → W
  after_attempts [] w = w
  after_attempts (p ∷ ps) w = after_attempts ps (attempt p w).1

  abbrev pub is_reliable : SteamPacketPeer → Bool
  is_reliable p = has_reliable_flag env.send_reliable p.transfer_mode

  -- Each packet was accepted, or was refused and is not reliable.
  abbrev pub AreSettled : List SteamPacketPeer → W → Type 0
  AreSettled [] w = Unit {0}
  AreSettled (p ∷ ps) w =
      ((is_ok (attempt p w).0 ≡ true) ⊎ ((is_ok (attempt p w).0 ≡ false) × (is_reliable p ≡ false)))
      × AreSettled ps (attempt p w).1

  -- Each packet was accepted.
  abbrev pub AreAccepted : List SteamPacketPeer → W → Type 0
  AreAccepted [] w = Unit {0}
  AreAccepted (p ∷ ps) w = (is_ok (attempt p w).0 ≡ true) × AreAccepted ps (attempt p w).1

  -- The first packet is reliable and was refused by the last attempt, which led to `w'`.
  abbrev pub IsHeld : List SteamPacketPeer → W → W → Type 0
  IsHeld [] w w' = w' ≡ w
  IsHeld (p ∷ ps) w w' =
      (is_reliable p ≡ true) × (is_ok (attempt p w).0 ≡ false) × (w' ≡ (attempt p w).1)

  -- `rest` is what is left of `ps` once the settled packets before it are gone.
  abbrev pub Drains : List SteamPacketPeer → W → List SteamPacketPeer → W → Type 0
  Drains ps w rest w' =
      (gone : List SteamPacketPeer) × (ps ≡ gone ++ rest)
      × AreSettled gone w
      × IsHeld rest (after_attempts gone w) w'

  Drains-cons :
      (p : SteamPacketPeer) (ps : List SteamPacketPeer) (w : W) (rest : List SteamPacketPeer)
      (w' : W)
      → (is_ok (attempt p w).0 ≡ true) ⊎ ((is_ok (attempt p w).0 ≡ false) × (is_reliable p ≡ false))
      → Drains ps (attempt p w).1 rest w'
      → Drains (p ∷ ps) w rest w'
  Drains-cons p ps w rest w' h (gone, e, settled, held) =
      (p ∷ gone, ap (◌∷◌ p) e, (h, settled), held)

  module _ (up : env.sockets ≡ true) where
    pub raw_send-attempt :
        (p : SteamPacketPeer) (w : W) → raw_send env handle p w ≡ some (attempt p w)
    unfolding raw_send
    raw_send-attempt p w = rw up

    abbrev pub Drained : List SteamPacketPeer → W → Type 0
    Drained ps w =
        (rest : List SteamPacketPeer) × (w' : W) × (send_pending_loop env handle ps w
          ≡ some (rest, w'))
        × Drains ps w rest w'

    Drained-skip :
        (p : SteamPacketPeer) (ps : List SteamPacketPeer) (w : W)
        → send_pending_loop env handle (p ∷ ps) w ≡ send_pending_loop env handle ps (attempt p w).1
        → (is_ok (attempt p w).0 ≡ true)
          ⊎ ((is_ok (attempt p w).0 ≡ false) × (is_reliable p ≡ false))
        → Drained ps (attempt p w).1
        → Drained (p ∷ ps) w
    Drained-skip p ps w step h (rest, w', e, d) =
        (rest, w', step ∙ e, Drains-cons p ps w rest w' h d)

    -- The loop ends on every queue, and settles the packets of a prefix in order.
    pub send_pending_loop-Drains : (ps : List SteamPacketPeer) (w : W) → Drained ps w
    unfolding send_pending_loop
    send_pending_loop-Drains [] w = ([], w, refl, ([], refl, tt, refl))
    send_pending_loop-Drains (p ∷ ps) w = elim (Bool-cases (is_ok (attempt p w).0)) [
      | inl accepted ↦
          Drained-skip p ps w (ground (arith, raw_send-attempt p w)) (inl accepted)
            (send_pending_loop-Drains ps (attempt p w).1)
      | inr refused ↦ elim (Bool-cases (is_reliable p)) [
        | inl reliable ↦ (
          p ∷ ps,
          (attempt p w).1,
          ground (arith, raw_send-attempt p w),
          ([], refl, tt, (reliable, refused, refl)),
        )
        | inr lossy ↦
            Drained-skip p ps w (ground (arith, raw_send-attempt p w)) (inr (refused, lossy))
              (send_pending_loop-Drains ps (attempt p w).1)
      ]
    ]

    Accepted-Drains :
        (ps : List SteamPacketPeer) (w : W)
        → AreAccepted ps w
        → send_pending_loop env handle ps w ≡ some ([], after_attempts ps w)
    unfolding send_pending_loop
    Accepted-Drains [] w h = refl
    Accepted-Drains (p ∷ ps) w (accepted, others) =
        ground (arith, raw_send-attempt p w, Accepted-Drains ps (attempt p w).1 others)

module _ {W : Type 0} (env : Env W) (up : env.sockets ≡ true) where
  -- With Steam there, `send` ends for every queue and reports `OK`. It attempts the waiting
  -- packets and then the new one in order, drops each that is accepted or that is refused and
  -- not reliable, and stops at the first reliable packet that is refused, which waits with all
  -- that follow it.
  pub send-Drains :
      (packet : SteamPacketPeer) (c : SteamConnection) (w : W)
      → (rest : List SteamPacketPeer) × (w' : W) × (send env packet c w
          ≡ some (Error.ok, record c { pending_retry_packets = rest }, w'))
        × Drains env c.steam_connection (c.pending_retry_packets ++ packet ∷ []) w rest w'
  unfolding send send_pending add_packet
  send-Drains packet c w =
      let (rest, w', e, d) =
        send_pending_loop-Drains env c.steam_connection up (c.pending_retry_packets ++ packet ∷ [])
          w in
      (rest, w', ground arith, d)

  -- With Steam there, and where it accepts every waiting packet and the new one, `send` hands
  -- them over in order and leaves nothing waiting.
  pub send-AreAccepted :
      (packet : SteamPacketPeer) (c : SteamConnection) (w : W)
      → AreAccepted env c.steam_connection (c.pending_retry_packets ++ packet ∷ []) w
      → send env packet c w
        ≡ some (
          Error.ok,
          record c { pending_retry_packets = [] },
          after_attempts env c.steam_connection (c.pending_retry_packets ++ packet ∷ []) w,
        )
  unfolding send send_pending add_packet
  send-AreAccepted packet c w h = ground (
    arith,
    Accepted-Drains env c.steam_connection up (c.pending_retry_packets ++ packet ∷ []) w h,
  )
