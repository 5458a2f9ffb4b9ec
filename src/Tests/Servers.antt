-- ===== src/Tests/Servers.antt =====
-- The witnesses of the theorems on a server and a client in a session.
use godot_godaemon_multiplay.Prelude.{
  ℕ, ◌≡◌, refl, arith, none, some, [], ◌∷◌, false, bytes_of_u32, map,
}
use godot_godaemon_multiplay.Steam.{Env}
use godot_godaemon_multiplay.Steam.Types
use godot_godaemon_multiplay.EResult.{EResult}
use godot_godaemon_multiplay.Godot.{ok, connecting, err_already_in_use}
use godot_godaemon_multiplay.Steam.Types.{Message}
use godot_godaemon_multiplay.Connection
use godot_godaemon_multiplay.Connection.{SteamConnection}
use godot_godaemon_multiplay.Peer.Ends.{Ends}
use godot_godaemon_multiplay.Peer.Registry.{
  add_connection, setup_loopback_connection, get_connection_by_peer,
}
use godot_godaemon_multiplay.Peer.Invariant.{
  IsRegistry, add_connection-IsRegistry, setup_loopback_connection-IsRegistry,
}
use godot_godaemon_multiplay.Peer.Packets.{
  get_packet_peer, put_packet, put_packet_error, get_available_packet_count,
}
use godot_godaemon_multiplay.Peer.Sending.{
  SameButObjects, put_packet-Delivers, put_packet_refused, put_packet_negative_target,
  put_packet_oversize,
}
use godot_godaemon_multiplay.Peer.Lifecycle.{close, disconnect_peer, create_host, create_client}
use godot_godaemon_multiplay.Peer.Loopback.{create_loopback_client}
use godot_godaemon_multiplay.Peer.Action.{Session}
use godot_godaemon_multiplay.Peer.Closing.{
  Forgotten, disconnect_peer-Forgotten, get_packet_peer-disconnect_peer,
}
use godot_godaemon_multiplay.Peer.Poll.{received_packet, poll, process_one}
use godot_godaemon_multiplay.Peer.Queue.{
  within_limit, after_messages, packets_got, packets_got-after_messages,
}
use godot_godaemon_multiplay.Peer.Polling.{EndsHandled, poll-Handled}
use godot_godaemon_multiplay.Peer.Handshake.{Introduces, process_one-Introduces}
use godot_godaemon_multiplay.Peer.Callback.{network_connection_status_changed}
use godot_godaemon_multiplay.Peer.Callback
use godot_godaemon_multiplay.HashMap
use godot_godaemon_multiplay.Peer.Status.{
  network_connection_status_changed-IsRegistry, rejected_client_unchanged,
}
use godot_godaemon_multiplay.Tests.Setting.{
  documented, steam, accepting, known_connection, fresh_connection, packet_of, server,
  server-IsRegistry, client, at, report, conversions,
}

abbrev test_message : Message
test_message = record { identity_peer = 42; flags = 0; payload = 1 ∷ 2 ∷ 3 ∷ [] }

poll-Handled_example :
    EndsHandled
      (steam EResult.ok (test_message ∷ []))
      refl
      (at (server 0 []))
      (poll (steam EResult.ok (test_message ∷ [])) (at (server 0 [])))
poll-Handled_example =
    poll-Handled (steam EResult.ok (test_message ∷ [])) refl (at (server 0 []))
      (server-IsRegistry 0 []) (λ handle w. (unfold HashMap.has HashMap.lookup in refl, tt))

process_one-Introduces_example :
    Ends
      (process_one accepting
        (record { identity_peer = 43; flags = 0; payload = bytes_of_u32 6 })
        (at (server 0 [])))
      (Introduces accepting refl (server 0 []) 43 6)
process_one-Introduces_example =
    process_one-Introduces accepting refl 43 6 2 0 fresh_connection (at (server 0 []))
      (λ h. absurd (ground (arith, h))) (ground arith) (λ h. absurd (ground (arith, h)))
      (unfold HashMap.lookup in refl) refl refl refl

put_packet-Delivers_example :
    Ends
      (put_packet accepting (1 ∷ []) (at (server 5 [])))
      (λ e t. (e ≡ ok) × IsRegistry t.peer × SameButObjects (server 5 []) t.peer)
put_packet-Delivers_example =
    put_packet-Delivers accepting (1 ∷ []) (at (server 5 [])) refl (server-IsRegistry 5 []) refl
      (unfold put_packet_error HashMap.has HashMap.lookup in refl)

put_packet_refused_example :
    put_packet accepting (1 ∷ []) (at (server 8 []))
    ≡ some (put_packet_error accepting (server 8 []), at (server 8 []))
put_packet_refused_example =
    put_packet_refused accepting (1 ∷ []) (at (server 8 []))
      (unfold put_packet_error HashMap.has HashMap.lookup in (λ h. absurd (ground (arith, h))))

put_packet_negative_target_example :
    put_packet accepting (1 ∷ []) (at (server 4294967291 [])) ≡ none
put_packet_negative_target_example =
    put_packet_negative_target accepting (1 ∷ []) (at (server 4294967291 []))
      (unfold put_packet_error HashMap.has HashMap.lookup in refl) refl
      (unfold HashMap.has HashMap.lookup in refl)

disconnect_peer-Forgotten_example :
    Ends
      (disconnect_peer accepting 5 false (at (server 0 [])))
      (Forgotten accepting refl 5 known_connection (at (server 0 [])))
disconnect_peer-Forgotten_example =
    disconnect_peer-Forgotten accepting refl 5 (at (server 0 [])) 1 known_connection refl
      (unfold get_connection_by_peer HashMap.lookup in refl) refl (unfold Connection.close in refl)

get_packet_peer-disconnect_peer_example :
    Ends
      (disconnect_peer accepting 5 false (at (server 0 (packet_of 42 ∷ []))))
      (λ _ t. get_packet_peer t.peer ≡ none)
get_packet_peer-disconnect_peer_example =
    get_packet_peer-disconnect_peer accepting refl 5 (at (server 0 (packet_of 42 ∷ []))) 1
      known_connection (packet_of 42) [] refl (unfold get_connection_by_peer HashMap.lookup in refl)
      refl (unfold Connection.close in refl) refl refl

packets_got-after_messages_example :
    packets_got
      (get_available_packet_count (after_messages documented (test_message ∷ []) client))
      (after_messages documented (test_message ∷ []) client)
    ≡ map received_packet (within_limit documented (test_message ∷ []))
packets_got-after_messages_example =
    packets_got-after_messages documented (test_message ∷ []) client refl

network_connection_status_changed-IsRegistry_example :
    Ends
      (network_connection_status_changed accepting
        (report Types.none Types.connecting 9 44)
        (at (server 0 [])))
      (λ _ t. IsRegistry t.peer)
network_connection_status_changed-IsRegistry_example =
    network_connection_status_changed-IsRegistry accepting refl
      (report Types.none Types.connecting 9 44) (at (server 0 [])) (λ h. absurd (ground (arith, h)))
      (server-IsRegistry 0 [])

abbrev trying_client : Session ℕ
trying_client = at (record client { unique_id = 77; connection_status = connecting })

rejected_client_unchanged_example :
    (network_connection_status_changed accepting
        (report Types.connecting Types.closed_by_peer 0 44)
        trying_client
      ≡ some (tt, trying_client))
    × (close accepting trying_client ≡ some (tt, trying_client))
    × (create_host accepting conversions 3 trying_client ≡ some (err_already_in_use, trying_client))
    × (create_client accepting conversions 44 3 trying_client
        ≡ some (err_already_in_use, trying_client))
    × (create_loopback_client accepting conversions none trying_client
        ≡ some (err_already_in_use, none, trying_client))
rejected_client_unchanged_example =
    rejected_client_unchanged accepting conversions
      (report Types.connecting Types.closed_by_peer 0 44) 44 3 none trying_client refl refl refl
      (unfold Callback.was_accepted in refl)

add_connection-IsRegistry_example : IsRegistry (add_connection accepting 44 13 (server 0 [])).1
add_connection-IsRegistry_example =
    add_connection-IsRegistry accepting 44 13 (server 0 []) (server-IsRegistry 0 [])

setup_loopback_connection-IsRegistry_example :
    IsRegistry (setup_loopback_connection 1001 21 (server 0 [])).1
setup_loopback_connection-IsRegistry_example =
    setup_loopback_connection-IsRegistry 1001 21 (server 0 []) (server-IsRegistry 0 [])

-- Steam with a limit of two bytes.
abbrev narrow : Env ℕ
narrow = record accepting { constants = record documented { max_steam_packet_size = 2 } }

put_packet_oversize_example :
    (put_packet narrow (1 ∷ 2 ∷ 3 ∷ []) (at (server 5 []))
      ≡ put_packet narrow (4 ∷ 5 ∷ 6 ∷ []) (at (server 5 [])))
    × Ends (put_packet narrow (1 ∷ 2 ∷ 3 ∷ []) (at (server 5 []))) (λ e t. e ≡ ok)
put_packet_oversize_example =
    put_packet_oversize narrow (1 ∷ 2 ∷ 3 ∷ []) (4 ∷ 5 ∷ 6 ∷ []) (at (server 5 [])) refl
      (server-IsRegistry 5 []) refl (unfold put_packet_error HashMap.has HashMap.lookup in refl)
      refl refl
