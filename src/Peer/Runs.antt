-- ===== src/Peer/Runs.antt =====
-- Whole runs of a peer: the engine's and the script's calls and Steam's reports, in any order.
use godot_godaemon_multiplay.Prelude.{
  ℕ, ◌≡◌, refl, subst, ◌≢◌, ◌⊎◌, inl, inr, Bool, true, false, Option, none, some, List, [], ◌∷◌,
  arith, is_negative,
}
use godot_godaemon_multiplay.Godot.{Error, ok}
use godot_godaemon_multiplay.Steam.{Env}
use godot_godaemon_multiplay.Steam.Types.{StatusChanged}
use godot_godaemon_multiplay.Config.{Conversions, get_options}
use godot_godaemon_multiplay.Config.Options.{has_string, get_convert_options-Converted}
use godot_godaemon_multiplay.Peer.State.{SteamMultiplayerPeer}
use godot_godaemon_multiplay.Peer.Action.{Session}
use godot_godaemon_multiplay.Peer.Settings.{set_target_peer}
use godot_godaemon_multiplay.Peer.Packets.{get_packet, put_packet, put_packet_error}
use godot_godaemon_multiplay.Peer.Lifecycle.{
  close, disconnect_peer, create_host, open_host, create_client, open_client,
}
use godot_godaemon_multiplay.Peer.Loopback.{create_loopback_client}
use godot_godaemon_multiplay.Peer.Joining.{create_loopback_client-Joins}
use godot_godaemon_multiplay.Peer.Control.{client_after}
use godot_godaemon_multiplay.Peer.Poll.{poll}
use godot_godaemon_multiplay.Peer.Callback.{network_connection_status_changed}
use godot_godaemon_multiplay.Peer.Ends.{Ends, Ends-mono, Ends-of_eq}
use godot_godaemon_multiplay.Peer.Invariant.{IsRegistry}
use godot_godaemon_multiplay.Peer.Sending.{put_packet-Delivers, put_packet_refused}
use godot_godaemon_multiplay.Peer.Polling.{PollsFrom, poll-Handled_at_hand}
use godot_godaemon_multiplay.Peer.Closing.{close-IsRegistry, disconnect_peer-IsRegistry}
use godot_godaemon_multiplay.Peer.Status.{network_connection_status_changed-IsRegistry}

-- The peer has the same maps and connections.
abbrev pub SameMaps : SteamMultiplayerPeer → SteamMultiplayerPeer → Type 0
SameMaps p q =
    (q.connections_by_steam_id64 ≡ p.connections_by_steam_id64)
    × (q.peer_id_to_steam_id ≡ p.peer_id_to_steam_id)
    × (q.loopback_connections_by_steam_id64 ≡ p.loopback_connections_by_steam_id64)
    × (q.connection_objects ≡ p.connection_objects)

SameMaps-IsRegistry : (p q : SteamMultiplayerPeer) → SameMaps p q → IsRegistry p → IsRegistry q
SameMaps-IsRegistry p q (by_steam, by_peer, looped, objects) r = record {
  by_steam_id = rw (by_steam, objects) r.by_steam_id;
  by_peer_id = rw (by_peer, objects) r.by_peer_id;
  loopback = rw (looped, objects) r.loopback;
}

module _ {W : Type 0} (env : Env W) (conv : Conversions) where
  create_host-SameMaps :
      (port : ℕ) (s : Session W)
      → has_string (get_options s.peer.configs) ≡ false
      → Ends (create_host env conv port s) (λ _ t. SameMaps s.peer t.peer)
  unfolding create_host open_host
  create_host-SameMaps port s plain =
      let (options, e, numbers) = get_convert_options-Converted env conv s.peer.configs plain in
      ground (arith, e)

  create_client-SameMaps :
      (user port : ℕ) (s : Session W)
      → has_string (get_options s.peer.configs) ≡ false
      → Ends (create_client env conv user port s) (λ _ t. SameMaps s.peer t.peer)
  unfolding create_client open_client
  create_client-SameMaps user port s plain =
      let (options, e, numbers) = get_convert_options-Converted env conv s.peer.configs plain in
      ground (arith, e)

get_packet-SameMaps : (p : SteamMultiplayerPeer) → SameMaps p (get_packet p).1
unfolding get_packet
get_packet-SameMaps p = ground arith

ok-cases : (e : Error) → (e ≡ ok) ⊎ (e ≢ ok)
ok-cases ok = inl refl
ok-cases _ = inr (λ h. absurd (ground (arith, h)))

-- What can happen to a peer.
pub data Event : Type 0 where
  host_created : ℕ → Event
  client_created : ℕ → ℕ → Event
  loopback_created : Option SteamMultiplayerPeer → Event
  target_set : ℕ → Event
  packet_put : List ℕ → Event
  packet_got : Event
  polled : Event
  status_changed : StatusChanged → Event
  peer_disconnected : ℕ → Bool → Event
  closed : Event

-- The session after an action.
unfoldable pub after : {W A : Type 0} → Option (A × Session W) → Option (Session W)
after none = none
after (some (a, t)) = some t

module _ {W : Type 0} (env : Env W) (conv : Conversions) where
  unfoldable pub perform : Event → Session W → Option (Session W)
  unfolding after
  perform (host_created port) s = after (create_host env conv port s)
  perform (client_created user port) s = after (create_client env conv user port s)
  perform (loopback_created host) s = after (client_after (create_loopback_client env conv host s))
  perform (target_set peer) s = some (record s { peer = set_target_peer peer s.peer })
  perform (packet_put buffer) s = after (put_packet env buffer s)
  perform packet_got s = some (record s { peer = (get_packet s.peer).1 })
  perform polled s = after (poll env s)
  perform (status_changed ev) s = after (network_connection_status_changed env ev s)
  perform (peer_disconnected peer force) s = after (disconnect_peer env peer force s)
  perform closed s = after (close env s)

  -- The session after the events, oldest first.
  unfoldable pub run : List Event → Session W → Option (Session W)
  run [] s = some s
  run (event ∷ rest) s = elim (perform event s) [ none ↦ none | some t ↦ run rest t ]

after-IsRegistry :
    {W A : Type 0} (r : Option (A × Session W))
    → Ends r (λ _ t. IsRegistry t.peer)
    → (t : Session W) × (after r ≡ some t) × IsRegistry t.peer
unfolding after
after-IsRegistry none h = absurd h
after-IsRegistry (some (a, t)) h = (t, refl, h)

module _ {W : Type 0} (env : Env W) (conv : Conversions) (up : env.sockets ≡ true) where
  -- What the theorems ask of an event: no option is a string where a host or a client is created, no
  -- option at all is set where a loopback client is created for a host, which is a registry, the
  -- target of a packet is not negative, what Steam hands out during a poll is from users with an entry,
  -- and no report is on a connection to the user itself.
  abbrev pub IsExpected : Event → Session W → Type 0
  IsExpected (host_created port) s = has_string (get_options s.peer.configs) ≡ false
  IsExpected (client_created user port) s = has_string (get_options s.peer.configs) ≡ false
  IsExpected (packet_put buffer) s = is_negative s.peer.target_peer ≡ false
  IsExpected polled s =
      PollsFrom env up s.peer.connections_by_steam_id64 s.peer.connections_by_steam_id64 s
  IsExpected (status_changed ev) s = ev.identity_remote ≢ env.own_steam_id
  IsExpected (loopback_created none) s = ⊥
  IsExpected (loopback_created (some host)) s =
      IsRegistry host × (host.configs.options ≡ []) × (s.peer.configs.options ≡ [])
  IsExpected (target_set peer) s = Unit {0}
  IsExpected packet_got s = Unit {0}
  IsExpected (peer_disconnected peer force) s = Unit {0}
  IsExpected closed s = Unit {0}

  -- Each event is expected when its turn comes.
  abbrev pub AreExpected : List Event → Session W → Type 0
  AreExpected [] s = Unit {0}
  AreExpected (event ∷ rest) s =
      IsExpected event s
      × ((t : Session W) → perform env conv event s ≡ some t → AreExpected rest t)

  -- An event whose end is known leaves the rest to that end.
  pub AreExpected-step :
      (event : Event) (rest : List Event) (s t : Session W)
      → perform env conv event s ≡ some t
      → IsExpected event s
      → AreExpected rest t
      → AreExpected (event ∷ rest) s
  AreExpected-step event rest s t e expected later =
      (expected, λ u f. subst (AreExpected rest) (ground (arith, e, f)) later)

  put_packet-IsRegistry :
      (buffer : List ℕ) (s : Session W)
      → is_negative s.peer.target_peer ≡ false
      → IsRegistry s.peer
      → Ends (put_packet env buffer s) (λ _ t. IsRegistry t.peer)
  put_packet-IsRegistry buffer s nonneg r = elim (ok-cases (put_packet_error env s.peer)) [
    | inl good ↦
        Ends-mono _ (λ _ t. IsRegistry t.peer) _ (put_packet-Delivers env buffer s up r nonneg good)
          (λ _ t (result, kept, same). kept)
    | inr bad ↦ Ends-of_eq (λ _ t. IsRegistry t.peer) _ _ s (put_packet_refused env buffer s bad) r
  ]

  pub perform-IsRegistry :
      (event : Event) (s : Session W)
      → IsRegistry s.peer
      → IsExpected event s
      → (t : Session W) × (perform env conv event s ≡ some t) × IsRegistry t.peer
  unfolding perform set_target_peer get_packet after client_after
  perform-IsRegistry (host_created port) s r plain = after-IsRegistry _ (
      Ends-mono _ (λ _ t. IsRegistry t.peer) _ (create_host-SameMaps env conv port s plain)
        (λ _ t same. SameMaps-IsRegistry s.peer t.peer same r))
  perform-IsRegistry (client_created user port) s r plain = after-IsRegistry _ (
      Ends-mono _ (λ _ t. IsRegistry t.peer) _ (create_client-SameMaps env conv user port s plain)
        (λ _ t same. SameMaps-IsRegistry s.peer t.peer same r))
  perform-IsRegistry (loopback_created none) s r null = absurd null
  perform-IsRegistry (loopback_created (some host)) s r (rh, plain_host, plain) =
      let (e, h, t, ended, (_, kept, _)) =
        create_loopback_client-Joins env conv host s rh r plain_host plain in
      (t, ground (arith, ended), kept)
  perform-IsRegistry (target_set peer) s r _ =
      (_, refl, SameMaps-IsRegistry s.peer _ (refl, refl, refl, refl) r)
  perform-IsRegistry (packet_put buffer) s r nonneg =
      after-IsRegistry _ (put_packet-IsRegistry buffer s nonneg r)
  perform-IsRegistry packet_got s r _ =
      (_, refl, SameMaps-IsRegistry s.peer _ (get_packet-SameMaps s.peer) r)
  perform-IsRegistry polled s r from = after-IsRegistry _ (
      Ends-mono _ (λ _ t. IsRegistry t.peer) _ (poll-Handled_at_hand env up s r from)
        (λ _ t h. h.registry))
  perform-IsRegistry (status_changed ev) s r other =
      after-IsRegistry _ (network_connection_status_changed-IsRegistry env up ev s other r)
  perform-IsRegistry (peer_disconnected peer force) s r _ =
      after-IsRegistry _ (disconnect_peer-IsRegistry env up peer force s r)
  perform-IsRegistry closed s r _ = after-IsRegistry _ (close-IsRegistry env s r)

  -- With Steam there, a run from a registry does not crash and ends in a registry, whatever the
  -- order of its events: hosts, clients and loopback clients created, targets set, packets put
  -- and got, polls, reports of Steam, peers disconnected, the peer closed. What is asked of each
  -- event when its turn comes is that no option is a string where a host or a client is created,
  -- that neither end has an option and there is a host that is a registry where a loopback
  -- client is created, that the target of a packet put is not negative, that what Steam hands
  -- out in a poll, in the world of that moment, is from users who have an entry then, and that
  -- no report is on a connection to the user itself.
  pub run-IsRegistry :
      (events : List Event) (s : Session W)
      → IsRegistry s.peer
      → AreExpected events s
      → (t : Session W) × (run env conv events s ≡ some t) × IsRegistry t.peer
  unfolding run
  run-IsRegistry [] s r _ = (s, refl, r)
  run-IsRegistry (event ∷ rest) s r (expected, later) =
      let (t, e, kept) = perform-IsRegistry event s r expected in
      let (u, f, last) = run-IsRegistry rest t kept (later t e) in (u, ground (arith, e, f), last)
