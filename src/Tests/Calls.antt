-- ===== src/Tests/Calls.antt =====
-- The witnesses of the theorems on remote procedure calls.
use godot_godaemon_multiplay.Prelude.{
  ℕ, ◌<◌, ◌≡◌, refl, true, false, not, ◌&&◌, ◌==◌, some, [], ◌∷◌, ◌++◌, map, arith,
}
use godot_godaemon_multiplay.HashMap.{lookup}
use godot_godaemon_multiplay.Repository.{get_object, get_id}
use godot_godaemon_multiplay.Rpc.{
  Api, compress_rpc, decompress_rpc, Receivers, called_here, sent_to, when,
}
use godot_godaemon_multiplay.Rpc.RoundTrip.{DecodesArgs, decompress_rpc-compress_rpc}
use godot_godaemon_multiplay.Rpc.Routes.{those, reaches, rpc_broadcast, negative_target_misrouted}
use godot_godaemon_multiplay.Rpc.Inbound.{Incoming, is_admitted, inbound_rpc}
use godot_godaemon_multiplay.Rpc.Outbound.{Outgoing, outbound_error, outbound_rpc}
use godot_godaemon_multiplay.Rpc.Sending.{command_for, receives, meant, outbound_rpc-reaches}
use godot_godaemon_multiplay.Tests.Scripts.{numeral, engine, tracking, value_of_bytes}

abbrev server_api : Api
server_api = record { unique_id = 1; repository = tracking }

abbrev client_api : Api
client_api = record { unique_id = 5; repository = tracking }

tracked : get_id 31 tracking < 4294967296
unfolding get_id lookup
tracked = ground arith

test_args-DecodesArgs : DecodesArgs engine (numeral 7 ∷ [])
test_args-DecodesArgs = record {
  byte_array = λ arg bytes h. value_of_bytes arg bytes h;
  array_size = λ before. refl;
  array = λ before. refl;
}

decompress_rpc-compress_rpc_example :
    decompress_rpc engine client_api 1 (compress_rpc engine server_api 6 5 31 2 (numeral 7 ∷ []))
    ≡ some (record {
      from_peer = 6;
      to_peer = 5;
      object_id = get_id 31 tracking;
      method_idx = 2;
      args = numeral 7 ∷ [];
    })
decompress_rpc-compress_rpc_example =
    decompress_rpc-compress_rpc engine server_api client_api 6 5 31 2 1 (numeral 7 ∷ []) refl
      test_args-DecodesArgs tracked (ground arith) (ground arith) (ground arith)

abbrev receivers : Receivers
receivers = record {
  server_receives = true;
  clients_receive = true;
  on_node = true;
  can_they_recv = λ p. true;
  passes_filters = λ p. true;
  peers = 1 ∷ 5 ∷ 6 ∷ 7 ∷ [];
}

abbrev incoming : Incoming
incoming = record {
  is_instance_valid = λ o. true;
  has_script = true;
  has_config = true;
  has_method = true;
  can_they_send = λ p. true;
  within_ratelimit = true;
  receivers = receivers;
}

object_found : get_object (λ o. true) (get_id 31 tracking) tracking ≡ (some 31, tracking)
unfolding get_object get_id lookup
object_found = refl

rpc_broadcast_example :
    inbound_rpc engine server_api incoming 5
      (compress_rpc engine client_api 5 0 31 2 (numeral 7 ∷ []))
    ≡ (
      some
          (when true called_here ++ map sent_to (those (reaches receivers 5) (1 ∷ 5 ∷ 6 ∷ 7 ∷ []))),
      tracking,
    )
rpc_broadcast_example =
    rpc_broadcast engine client_api server_api incoming 31 31 2 5 (numeral 7 ∷ []) refl refl
      test_args-DecodesArgs tracked (ground arith) (λ h. absurd (ground (arith, h))) object_found
      (unfold is_admitted in refl)

negative_target_misrouted_example :
    inbound_rpc engine server_api incoming 5
      (compress_rpc engine client_api 5 18446744073709551610 31 2 (numeral 7 ∷ []))
    ≡ (some (when true (sent_to 4294967290)), tracking)
negative_target_misrouted_example =
    negative_target_misrouted engine client_api server_api incoming 31 31 2 5 (numeral 7 ∷ []) refl
      refl test_args-DecodesArgs tracked (ground arith) (λ h. absurd (ground (arith, h)))
      object_found 6 (ground arith) (ground arith) (unfold is_admitted in refl)

abbrev outgoing : Outgoing
outgoing = record {
  is_instance_valid = true;
  is_valid_after_await = true;
  is_queued_for_deletion = false;
  has_script = true;
  has_config = true;
  on_node = true;
  can_we_send = false;
  root_is_server = true;
  method_idx = 2;
  has_method = true;
  peers = 5 ∷ 6 ∷ 7 ∷ [];
  can_they_recv = λ p. not (p == 7);
  clients_receive = true;
  modify_targets = λ targets. targets;
  passes_filters = λ p. true;
  call_local = false;
}

-- The server's call to everybody but the peer 5.
outbound_rpc-reaches_example :
    ((outbound_rpc engine server_api outgoing 0 18446744073709551611 31 (numeral 7 ∷ [])).commands
      ≡ map (command_for engine server_api outgoing 31 (numeral 7 ∷ [])) (
          those
            (λ p. not (p == 1) && true)
            (those (receives outgoing) (meant (5 ∷ 6 ∷ 7 ∷ []) 18446744073709551611))))
    × ((p : ℕ)
        → p < 4294967296
        → decompress_rpc engine client_api 1
            (command_for engine server_api outgoing 31 (numeral 7 ∷ []) p).bytes
          ≡ some (record {
            from_peer = 1;
            to_peer = p;
            object_id = get_id 31 tracking;
            method_idx = 2;
            args = numeral 7 ∷ [];
          }))
outbound_rpc-reaches_example =
    outbound_rpc-reaches engine server_api client_api outgoing 18446744073709551611 31
      (numeral 7 ∷ []) refl refl (unfold outbound_error get_id lookup in refl) (λ xs. refl)
      (
        ((λ h. absurd (ground (arith, h))), ((λ h. absurd (ground (arith, h))), tt)),
        (((λ h. absurd (ground (arith, h))), tt), (tt, tt)),
      )
      test_args-DecodesArgs tracked (ground arith)
