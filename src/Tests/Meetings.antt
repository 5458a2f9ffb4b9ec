-- ===== src/Tests/Meetings.antt =====
-- The witnesses of the theorems on runs in the diagram and on two ends that meet.
use godot_godaemon_multiplay.Prelude.{ℕ, ◌≡◌, List, refl, arith, some, [], ◌∷◌, bytes_of_u32}
use godot_godaemon_multiplay.HashMap
use godot_godaemon_multiplay.Godot.{connecting, connected}
use godot_godaemon_multiplay.EResult
use godot_godaemon_multiplay.EResult.{EResult}
use godot_godaemon_multiplay.Config
use godot_godaemon_multiplay.Connection
use godot_godaemon_multiplay.Steam.{Env}
use godot_godaemon_multiplay.Steam.Types
use godot_godaemon_multiplay.Steam.Types.{StatusChanged}
use godot_godaemon_multiplay.Connection.Drain.{attempt}
use godot_godaemon_multiplay.Connection.Setup.{setup_packet}
use godot_godaemon_multiplay.Peer.State.{SteamMultiplayerPeer, mode_client}
use godot_godaemon_multiplay.Peer.Action.{Session}
use godot_godaemon_multiplay.Peer.Registry.{
  get_steam64_from_peer_id, get_peer_id_from_steam64, get_connection_by_peer,
}
use godot_godaemon_multiplay.Peer.Poll.{process_one}
use godot_godaemon_multiplay.Peer.Callback
use godot_godaemon_multiplay.Peer.Callback.{network_connection_status_changed}
use godot_godaemon_multiplay.Peer.Ends.{Ends}
use godot_godaemon_multiplay.Peer.Handshake.{peer_id_taken_over}
use godot_godaemon_multiplay.Peer.Runs.{
  Event, client_created, status_changed, polled, packet_got, closed,
}
use godot_godaemon_multiplay.Peer.Agreement.{delivered, Knows}
use godot_godaemon_multiplay.Peer.Encounter.{client_and_server_meet}
use godot_godaemon_multiplay.Tests.Setting.{
  idle_peer, empty_config, steam, accepting, known_connection, fresh_connection, server, client, at,
  report,
}

-- A client dials the user 44, polls, is accepted, and gets the host's peer id in the next poll.
abbrev answered : Env ℕ
answered =
    steam EResult.ok (record { identity_peer = 44; flags = 0; payload = bytes_of_u32 1 } ∷ [])

abbrev arrival : Event
arrival = status_changed (report Types.connecting Types.connected 0 44)

abbrev last_events : List Event
last_events = polled ∷ packet_got ∷ closed ∷ []

abbrev test_session : List Event
test_session = client_created 44 3 ∷ polled ∷ arrival ∷ last_events

abbrev dialling : Session ℕ
dialling = record {
  peer = record (idle_peer empty_config) {
    active_mode = mode_client;
    unique_id = 77;
    virtual_port = 3;
    connection_status = connecting;
  };
  world = 3;
}

abbrev joined : Session ℕ
joined = record {
  peer = record dialling.peer {
    connection_status = connected;
    client_steam_connection = 1;
    connections_by_steam_id64 = (44, 1) ∷ [];
    connection_objects = record fresh_connection { steam_id = 44 } ∷ [];
  };
  world = 4;
}

peer_id_taken_over_example :
    Ends
      (process_one accepting
        (record { identity_peer = 43; flags = 0; payload = bytes_of_u32 5 })
        (at (server 0 [])))
      (λ _ t.
        (get_steam64_from_peer_id accepting 5 t.peer ≡ some 43)
        × (get_peer_id_from_steam64 accepting 43 t.peer ≡ some 5)
        × (get_peer_id_from_steam64 accepting 42 t.peer ≡ some 5)
        × (get_connection_by_peer 5 t.peer ≡ some 2))
peer_id_taken_over_example =
    peer_id_taken_over accepting refl 43 42 5 2 1 0 fresh_connection known_connection
      (at (server 0 [])) (λ h. absurd (ground (arith, h))) (λ h. absurd (ground (arith, h)))
      (ground arith) (λ h. absurd (ground (arith, h))) (unfold HashMap.lookup in refl) refl refl
      refl (unfold HashMap.lookup in refl) refl refl

-- The client's side: the user 8, who is joining with the peer id 77.
abbrev client_steam : Env ℕ
client_steam = record accepting { own_steam_id = 8 }

abbrev joining_client : SteamMultiplayerPeer
joining_client = record client { unique_id = 77; connection_status = connecting }

abbrev client_report : StatusChanged
client_report = report Types.connecting Types.connected 0 7

abbrev server_report : StatusChanged
server_report = report Types.connecting Types.connected 9 8

client_and_server_meet_example :
    Ends (network_connection_status_changed client_steam client_report (at joining_client)) (λ _ s.
      (s.world ≡ (attempt client_steam 12 (setup_packet client_steam 77) 0).1)
      × Ends (network_connection_status_changed accepting server_report (at (server 0 []))) (λ _ t.
        Ends (process_one accepting (delivered 8 0 (setup_packet client_steam 77)) t) (λ _ u.
          (u.world ≡ (attempt accepting 12 (setup_packet accepting 1) 0).1)
          × Knows accepting 8 77 [] u.peer))
      × Ends
          (process_one client_steam (delivered 7 0 (setup_packet accepting 1)) s)
          (λ _ u. Knows client_steam 7 1 [] u.peer))
client_and_server_meet_example =
    client_and_server_meet client_steam accepting refl refl (λ h. absurd (ground (arith, h)))
      (ground arith) (ground arith) client_report server_report 0 0 (at joining_client)
      (at (server 0 []))
      (record {
        with_user = refl;
        heard = unfold Callback.is_ignored in refl;
        accepted = unfold Callback.was_accepted in refl;
      })
      refl refl (ground arith) (λ h. absurd (ground (arith, h)))
      (record {
        with_user = refl;
        heard = unfold Callback.is_ignored in refl;
        accepted = unfold Callback.was_accepted in refl;
      })
      refl refl refl
