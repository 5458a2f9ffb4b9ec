-- ===== src/Rpc/Routes.antt =====
-- Where a client's call ends up that a server hands on.
use godot_godaemon_multiplay.Prelude.{
  ℕ, ◌-◌, ◌%◌, ◌<◌, ◌≡◌, ◌≢◌, refl, Bool, true, false, not, ◌&&◌, some, List, [], ◌∷◌, ◌++◌, ◌∙◌,
  ap, map, arith, ◌==◌, if◌then◌else◌,
}
use godot_godaemon_multiplay.Engine.{Engine}
use godot_godaemon_multiplay.Repository.{get_id, get_object}
use godot_godaemon_multiplay.Rpc.{
  Api, is_server, RpcCall, compress_rpc, decompress_rpc, Receivers, called_here, sent_to, when,
  broadcast, route,
}
use godot_godaemon_multiplay.Rpc.Inbound.{Incoming, is_admitted, inbound_rpc}
use godot_godaemon_multiplay.Rpc.RoundTrip.{DecodesArgs, decompressed}

-- The peers of a list that a test lets through.
abbrev pub those : (ℕ → Bool) → List ℕ → List ℕ
those test [] = []
those test (p ∷ rest) = if test p then p ∷ those test rest else those test rest

-- Whom a broadcast from a client reaches: every peer that may receive it, but the server, the sender
-- and the id 0.
abbrev pub reaches : Receivers → ℕ → ℕ → Bool
reaches r sender p =
    not (p == 0)
    && (not (p == 1) && (not (p == sender) && (if r.on_node then r.can_they_recv p else true)))

broadcast-reaches :
    (r : Receivers) (sender : ℕ) (peers : List ℕ)
    → broadcast r sender 0 peers ≡ map sent_to (those (reaches r sender) peers)
unfolding broadcast
broadcast-reaches r sender [] = refl
broadcast-reaches r sender (p ∷ peers) = ground (arith, broadcast-reaches r sender peers)

module _ {V : Type 0} (engine : Engine V) where
  -- What a server does with a call whose bytes have been read.
  inbound_rpc_eq :
      (api : Api) (i : Incoming) (id object : ℕ) (bytes : List ℕ) (call : RpcCall V)
      → decompress_rpc engine api id bytes ≡ some call
      → get_object i.is_instance_valid call.object_id api.repository ≡ (some object, api.repository)
      → is_admitted api i call.from_peer call.to_peer ≡ true
      → inbound_rpc engine api i id bytes
        ≡ (some (route i.receivers id call.from_peer call.to_peer), api.repository)
  unfolding inbound_rpc
  inbound_rpc_eq api i id object bytes call read found admitted =
      ground (arith, read, found, admitted)

module _ {V : Type 0} (engine : Engine V) (api api' : Api) (i : Incoming)
    (object object' method_idx sender : ℕ) (args : List V) (client : is_server api ≡ false)
    (server : is_server api' ≡ true) (d : DecodesArgs engine args)
    (small : get_id object api.repository < 4294967296) (few : method_idx < 256)
    (other : sender ≢ 1)
    (found : get_object i.is_instance_valid (get_id object api.repository) api'.repository
      ≡ (some object', api'.repository)) where
  -- From the bytes of a client's call to everybody, `inbound_rpc` of a server calls the method
  -- once where servers receive it, and sends the call on to every peer that may receive it but
  -- the server and the sender, in the order of the peers. The server knows the object's id,
  -- which fits 32 bits, and the call passes its checks; the method's number is below 256, the
  -- sender is not the server, and the engine's decoding gives the arguments back.
  pub rpc_broadcast :
      is_admitted api' i sender 0 ≡ true
      → inbound_rpc engine api' i sender (compress_rpc engine api sender 0 object method_idx args)
        ≡ (
          some (
              when i.receivers.server_receives called_here
              ++ map sent_to (those (reaches i.receivers sender) i.receivers.peers)),
          api'.repository,
        )
  unfolding route
  rpc_broadcast admitted =
      let id_kept : get_id object api.repository % 4294967296 ≡ get_id object api.repository =
        omega arith in
      let call : RpcCall V = record {
        from_peer = sender;
        to_peer = 0;
        object_id = get_id object api.repository;
        method_idx = method_idx;
        args = args;
      } in
      let read : decompress_rpc engine api' sender
            (compress_rpc engine api sender 0 object method_idx args)
          ≡ some call =
        decompressed engine api api' sender 0 object method_idx sender args (ground arith) d
          (λ h. absurd (omega (arith, h))) few
        ∙ rw (client, id_kept) refl in
      inbound_rpc_eq engine api' i sender object' _ call read found admitted
      ∙ ap (λ xs. (some xs, api'.repository))
          (ground (arith, other, broadcast-reaches i.receivers sender i.receivers.peers))

  -- From the bytes of a client's call to everybody but the peer n, whose target is -n, the
  -- target is read as the positive 2^32 - n: `inbound_rpc` of a server sends the call on to a
  -- peer of that id at most, and neither calls the method nor broadcasts. The peer n is between
  -- 1 and 2^31 - 1. The server knows the object's id, which fits 32 bits, and the call passes
  -- its checks; the method's number is below 256, the sender is not the server, and the engine's
  -- decoding gives the arguments back.
  pub negative_target_misrouted :
      (n : ℕ)
      → 0 < n
      → n < 2147483648
      → is_admitted api' i sender (4294967296 - n) ≡ true
      → inbound_rpc engine api' i sender
          (compress_rpc engine api sender (18446744073709551616 - n) object method_idx args)
        ≡ (
          some (
              when
                (if i.receivers.on_node
                  then i.receivers.can_they_recv (4294967296 - n)
                  else i.receivers.clients_receive)
                (sent_to (4294967296 - n))),
          api'.repository,
        )
  unfolding route
  negative_target_misrouted n pos fits admitted =
      let id_kept : get_id object api.repository % 4294967296 ≡ get_id object api.repository =
        omega arith in
      let low : (18446744073709551616 - n) % 4294967296 ≡ 4294967296 - n = omega arith in
      let call : RpcCall V = record {
        from_peer = sender;
        to_peer = 4294967296 - n;
        object_id = get_id object api.repository;
        method_idx = method_idx;
        args = args;
      } in
      let read : decompress_rpc engine api' sender
            (compress_rpc engine api sender (18446744073709551616 - n) object method_idx args)
          ≡ some call =
        decompressed engine api api' sender (18446744073709551616 - n) object method_idx sender args
          (ground arith) d (λ h. absurd (omega (arith, h))) few
        ∙ rw (client, id_kept, low) refl in
      inbound_rpc_eq engine api' i sender object' _ call read found admitted
      ∙ ap (λ xs. (some xs, api'.repository)) (ground (arith, other))
