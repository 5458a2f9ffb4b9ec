-- ===== src/Peer/Queue.antt =====
-- The queue of incoming packets, between `_process_message` and `_get_packet`.
use godot_godaemon_multiplay.Prelude.{
  ℕ, zero, suc, ◌≡◌, refl, sym, ap, ◌∙◌, inl, inr, true, false, none, some, List, [], ◌∷◌, ◌++◌,
  map, append-nil, append_assoc, arith, if◌then◌else◌, Bool-cases, length, ltb,
}
use godot_godaemon_multiplay.Steam.{Constants}
use godot_godaemon_multiplay.Steam.Types.{Message}
use godot_godaemon_multiplay.Packet.{SteamPacketPeer}
use godot_godaemon_multiplay.Peer.State.{SteamMultiplayerPeer}
use godot_godaemon_multiplay.Peer.Packets.{get_packet, get_available_packet_count}
use godot_godaemon_multiplay.Peer.Poll.{received_packet, process_message}

-- The messages within Steam's size limit.
abbrev pub within_limit : Constants → List Message → List Message
within_limit c [] = []
within_limit c (msg ∷ rest) =
    let others = within_limit c rest in
    if ltb c.max_steam_packet_size (length msg.payload) then others else msg ∷ others

-- The peer after a message each.
abbrev pub after_messages : Constants → List Message → SteamMultiplayerPeer → SteamMultiplayerPeer
after_messages c [] p = p
after_messages c (msg ∷ rest) p = after_messages c rest (process_message c msg p)

-- The packets that calls of `_get_packet` hand out, until one reports an error.
abbrev pub packets_got : ℕ → SteamMultiplayerPeer → List SteamPacketPeer
packets_got zero p = []
packets_got (suc n) p = elim (get_packet p).0.1 [
  | none ↦ []
  | some packet ↦ packet ∷ packets_got n (get_packet p).1
]

process_message_large :
    (c : Constants) (msg : Message) (p : SteamMultiplayerPeer)
    → ltb c.max_steam_packet_size (length msg.payload) ≡ true
    → process_message c msg p ≡ p
unfolding process_message
process_message_large c msg p large = rw large

process_message_fine :
    (c : Constants) (msg : Message) (p : SteamMultiplayerPeer)
    → ltb c.max_steam_packet_size (length msg.payload) ≡ false
    → process_message c msg p
      ≡ record p { incoming_packets = p.incoming_packets ++ received_packet msg ∷ [] }
unfolding process_message
process_message_fine c msg p fine = rw fine

-- The packets of the messages, as the queue holds them.
abbrev as_packets : Constants → List Message → List SteamPacketPeer
as_packets c msgs = map received_packet (within_limit c msgs)

as_packets_large :
    (c : Constants) (msg : Message) (rest : List Message)
    → ltb c.max_steam_packet_size (length msg.payload) ≡ true
    → as_packets c (msg ∷ rest) ≡ as_packets c rest
as_packets_large c msg rest large = rw large

as_packets_fine :
    (c : Constants) (msg : Message) (rest : List Message)
    → ltb c.max_steam_packet_size (length msg.payload) ≡ false
    → as_packets c (msg ∷ rest) ≡ received_packet msg ∷ as_packets c rest
as_packets_fine c msg rest fine = rw fine

incoming-after_messages :
    (c : Constants) (msgs : List Message) (p : SteamMultiplayerPeer)
    → (after_messages c msgs p).incoming_packets ≡ p.incoming_packets ++ as_packets c msgs
incoming-after_messages c [] p = sym (append-nil p.incoming_packets)
incoming-after_messages c (msg ∷ rest) p =
    let queue : SteamMultiplayerPeer → List SteamPacketPeer =
      λ q. (after_messages c rest q).incoming_packets in
    elim (Bool-cases (ltb c.max_steam_packet_size (length msg.payload))) [
      | inl large ↦
          ap queue (process_message_large c msg p large)
          ∙ incoming-after_messages c rest p
          ∙ ap (◌++◌ p.incoming_packets) (sym (as_packets_large c msg rest large))
      | inr fine ↦
          let q : SteamMultiplayerPeer = record p {
            incoming_packets = p.incoming_packets ++ received_packet msg ∷ [];
          } in
          ap queue (process_message_fine c msg p fine)
          ∙ incoming-after_messages c rest q
          ∙ append_assoc p.incoming_packets (received_packet msg ∷ []) (as_packets c rest)
          ∙ ap (◌++◌ p.incoming_packets) (sym (as_packets_fine c msg rest fine))
    ]

packets_got_all :
    (xs : List SteamPacketPeer) (p : SteamMultiplayerPeer)
    → p.incoming_packets ≡ xs
    → packets_got (length xs) p ≡ xs
unfolding get_packet
packets_got_all [] p e = refl
packets_got_all (x ∷ xs) p e =
    let q : SteamMultiplayerPeer = record p {
      next_received_packet = some x;
      incoming_packets = xs;
    } in
    ground (arith, e, packets_got_all xs q refl)

-- After any messages on an empty queue, as many calls of `_get_packet` as packets are available
-- hand out one packet for each message within the size limit, in the order of arrival.
pub packets_got-after_messages :
    (c : Constants) (msgs : List Message) (p : SteamMultiplayerPeer)
    → p.incoming_packets ≡ []
    → packets_got (get_available_packet_count (after_messages c msgs p)) (after_messages c msgs p)
      ≡ map received_packet (within_limit c msgs)
unfolding get_available_packet_count
packets_got-after_messages c msgs p e =
    let q = after_messages c msgs p in
    packets_got_all q.incoming_packets q refl
    ∙ incoming-after_messages c msgs p
    ∙ ap (λ xs. xs ++ map received_packet (within_limit c msgs)) e
