-- ===== src/Tests/Connections.antt =====
-- The witnesses of the theorems on connections and on the texts of results.
use godot_godaemon_multiplay.Prelude.{ℕ, ◌≡◌, refl, arith, some, List, [], ◌∷◌, true, false}
use godot_godaemon_multiplay.Godot.{Error, unreliable_ordered}
use godot_godaemon_multiplay.EResult.{EResult, is_ok}
use godot_godaemon_multiplay.EResult.Text.{
  connection_convert_eresult_to_string, peer_convert_eresult_to_string,
}
use godot_godaemon_multiplay.EResult.Injective.{convert_eresult_to_string_agree}
use godot_godaemon_multiplay.Connection.{send, send_peer, has_reliable_flag}
use godot_godaemon_multiplay.Connection.Drain.{attempt, Drains, send-Drains}
use godot_godaemon_multiplay.Connection.Setup.{setup_packet, send_peer_not_retried}
use godot_godaemon_multiplay.Peer.Settings.{
  get_steam_transfer_flag, set_transfer_mode, set_no_nagle, set_no_delay,
}
use godot_godaemon_multiplay.Peer.Flags.{get_steam_transfer_flag_bits}
use godot_godaemon_multiplay.Tests.Setting.{
  documented, documented-AreDocumented, failing, known_connection, packet_of, server,
}

send-Drains_example :
    (rest : List _) × (w' : ℕ) × (send failing (packet_of 0) known_connection 0
      ≡ some (Error.ok, record known_connection { pending_retry_packets = rest }, w'))
    × Drains failing 11 (packet_of 0 ∷ []) 0 rest w'
send-Drains_example = send-Drains failing refl (packet_of 0) known_connection 0

send_peer_not_retried_example :
    send_peer failing 5 known_connection 0
    ≡ some (Error.ok, known_connection, (attempt failing 11 (setup_packet failing 5) 0).1)
unfolding is_ok
send_peer_not_retried_example =
    send_peer_not_retried failing 5 known_connection 0 documented-AreDocumented refl (ground arith)
      refl refl

get_steam_transfer_flag_bits_example :
    let flag = get_steam_transfer_flag documented (
      set_transfer_mode unreliable_ordered
        (set_no_nagle true (set_no_delay false (server 0 [])))) in
    (has_reliable_flag 8 flag ≡ true)
    × (has_reliable_flag 1 flag ≡ true)
    × (has_reliable_flag 4 flag ≡ false)
get_steam_transfer_flag_bits_example =
    get_steam_transfer_flag_bits documented unreliable_ordered true false (server 0 [])
      documented-AreDocumented

convert_eresult_to_string_agree_example :
    connection_convert_eresult_to_string EResult.fail ≡ peer_convert_eresult_to_string EResult.fail
convert_eresult_to_string_agree_example = convert_eresult_to_string_agree EResult.fail
