-- ===== src/Tests/Openings.antt =====
-- The witnesses of the theorems on opening a host or a client.
use godot_godaemon_multiplay.Prelude.{ℕ, bytes_of_u32, List, some, ◌≡◌, refl, arith, none, [], ◌∷◌}
use godot_godaemon_multiplay.Config.{string, int, get_options}
use godot_godaemon_multiplay.Config.Options.{config_set, config_after, config_step}
use godot_godaemon_multiplay.Config
use godot_godaemon_multiplay.HashMap
use godot_godaemon_multiplay.Peer.Ends.{Ends}
use godot_godaemon_multiplay.Peer.Lifecycle.{create_host, create_client}
use godot_godaemon_multiplay.Peer.Loopback.{create_loopback_client}
use godot_godaemon_multiplay.Peer.Opening.{
  OpensHost, OpensClient, create_host-OpensHost, create_client-OpensClient, create_string_crash,
  create_loopback_client_crash,
}
use godot_godaemon_multiplay.Peer.Joining.{EndsJoined, create_loopback_client-Joins}
use godot_godaemon_multiplay.Steam.Types
use godot_godaemon_multiplay.Peer.Action.{Session}
use godot_godaemon_multiplay.Peer.Invariant.{IsRegistry}
use godot_godaemon_multiplay.Peer.Runs.{
  Event, host_created, perform, after, AreExpected, AreExpected-step, status_changed, polled,
  packet_got, run, run-IsRegistry,
}
use godot_godaemon_multiplay.EResult
use godot_godaemon_multiplay.EResult.{EResult}
use godot_godaemon_multiplay.Peer.Callback
use godot_godaemon_multiplay.Peer.Registry.{add_connection}
use godot_godaemon_multiplay.Connection.{new_connection}
use godot_godaemon_multiplay.Peer.State.{SteamMultiplayerPeer, mode_server}
use godot_godaemon_multiplay.Godot.{connected}
use godot_godaemon_multiplay.Peer.Lifecycle.{open_host}
use godot_godaemon_multiplay.Peer.Poll.{poll, poll_loop}
use godot_godaemon_multiplay.Peer.Callback.{network_connection_status_changed}
use godot_godaemon_multiplay.Steam.{Env}
use godot_godaemon_multiplay.Tests.Setting.{
  steam, fresh_connection, report, empty_config, server-IsRegistry, accepting, conversions,
  config_of, idle_peer, server, at,
}

create_host-OpensHost_example :
    Ends
      (create_host accepting conversions 3 (at (idle_peer (config_of 9 (int 3)))))
      (OpensHost accepting conversions 3 (at (idle_peer (config_of 9 (int 3)))))
create_host-OpensHost_example =
    create_host-OpensHost accepting conversions 3 (at (idle_peer (config_of 9 (int 3))))
      (unfold get_options in refl)

create_client-OpensClient_example :
    Ends
      (create_client accepting conversions 44 3 (at (idle_peer (config_of 9 (int 3)))))
      (OpensClient accepting conversions 3 (at (idle_peer (config_of 9 (int 3)))))
create_client-OpensClient_example =
    create_client-OpensClient accepting conversions 44 3 (at (idle_peer (config_of 9 (int 3))))
      (λ w. (ground arith, ground arith)) (unfold get_options in refl)

create_string_crash_example :
    (create_host accepting conversions 3 (at (idle_peer (config_of 9 (string [])))) ≡ none)
    × (create_client accepting conversions 44 3 (at (idle_peer (config_of 9 (string [])))) ≡ none)
create_string_crash_example =
    create_string_crash accepting conversions 44 3 (at (idle_peer (config_of 9 (string [])))) refl
      refl refl (unfold get_options in refl)

create_loopback_client_crash_example :
    create_loopback_client accepting conversions
      (some (server 0 []))
      (at (idle_peer (config_after (config_set 9 (int 3) ∷ []))))
    ≡ none
unfolding Config.size Config.set_config config_after config_step Config.new_config HashMap.insert
    HashMap.erase
create_loopback_client_crash_example =
    create_loopback_client_crash accepting conversions (config_set 9 (int 3) ∷ [])
      (some (server 0 [])) (at (idle_peer (config_after (config_set 9 (int 3) ∷ [])))) refl refl
      (λ ids w h. absurd (ground (arith, h))) refl refl

create_loopback_client-Joins_example :
    EndsJoined accepting conversions (server 0 []) (at (idle_peer empty_config))
create_loopback_client-Joins_example =
    create_loopback_client-Joins accepting conversions (server 0 []) (at (idle_peer empty_config))
      (server-IsRegistry 0 []) (record { by_steam_id = tt; by_peer_id = tt; loopback = tt }) refl
      refl

-- The user 44 dials a host that has just been polled, and asks for the peer id 5 in the next poll.
abbrev dialled : Env ℕ
dialled = steam EResult.ok (record { identity_peer = 44; flags = 0; payload = bytes_of_u32 5 } ∷ [])

abbrev hosting_peer : SteamMultiplayerPeer
hosting_peer = record (idle_peer empty_config) {
  active_mode = mode_server;
  unique_id = 1;
  virtual_port = 3;
  connection_status = connected;
}

abbrev accepted_peer : SteamMultiplayerPeer
accepted_peer = record hosting_peer {
  connections_by_steam_id64 = (44, 1) ∷ [];
  connection_objects = record fresh_connection { steam_id = 44 } ∷ [];
}

abbrev knock : Event
knock = status_changed (report Types.none Types.connecting 9 44)

abbrev arrival : Event
arrival = status_changed (report Types.connecting Types.connected 9 44)

abbrev last_events : List Event
last_events = polled ∷ packet_got ∷ []

abbrev test_events : List Event
test_events = host_created 3 ∷ polled ∷ knock ∷ arrival ∷ last_events

last_events_expected :
    AreExpected dialled conversions refl last_events (record { peer = accepted_peer; world = 3 })
unfolding HashMap.has HashMap.lookup
last_events_expected = (((λ c e. (refl, tt)), λ t f. tt), λ t e. (tt, λ u f. tt))

test_events_expected :
    AreExpected dialled conversions refl test_events (at (idle_peer empty_config))
unfolding perform after create_host open_host poll poll_loop network_connection_status_changed
    get_options Config.get_convert_options Config.convert_loop Callback.is_ignored
    Callback.has_arrived Callback.on_arrived Callback.accept_handle EResult.is_ok
    Callback.was_accepted Callback.on_accepted add_connection HashMap.insert new_connection
test_events_expected =
    let hosting : Session ℕ = record { peer = hosting_peer; world = 2 } in
    let accepting_user : Session ℕ = record { peer = hosting_peer; world = 3 } in
    let accepted : Session ℕ = record { peer = accepted_peer; world = 3 } in
    let other : (44 ≡ 7) → ⊥ = λ h. absurd (ground (arith, h)) in
    let step = AreExpected-step dialled conversions refl in
    step (host_created 3) (polled ∷ knock ∷ arrival ∷ last_events) (at (idle_peer empty_config))
      hosting refl refl
      (step polled (knock ∷ arrival ∷ last_events) hosting hosting refl tt (
        step knock (arrival ∷ last_events) hosting accepting_user refl other
          (step arrival last_events accepting_user accepted refl other last_events_expected)))

run-IsRegistry_example :
    (t : Session ℕ) × (run dialled conversions test_events (at (idle_peer empty_config)) ≡ some t)
    × IsRegistry t.peer
run-IsRegistry_example =
    run-IsRegistry dialled conversions refl test_events (at (idle_peer empty_config))
      (record { by_steam_id = tt; by_peer_id = tt; loopback = tt }) test_events_expected
