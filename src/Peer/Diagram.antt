-- ===== src/Peer/Diagram.antt =====
-- The methods that open a session, and the reports of Steam, in the diagram of phases.
use godot_godaemon_multiplay.Prelude.{
  Option, none, some, ℕ, ◌≡◌, ◌≢◌, ◌⊎◌, inl, inr, true, false, arith, if◌then◌else◌,
}
use godot_godaemon_multiplay.Godot.{ConnectionStatus, connecting, connected, is_connected}
use godot_godaemon_multiplay.Steam.{Env, GivesClientIds}
use godot_godaemon_multiplay.Steam.Types.{StatusChanged}
use godot_godaemon_multiplay.Config.{Conversions}
use godot_godaemon_multiplay.Peer.Loopback.{
  apply_both, client_joined, join_host, join_given_host, create_loopback_client,
}
use godot_godaemon_multiplay.Peer.State.{
  Mode, SteamMultiplayerPeer, mode_server, mode_client, is_active, mode_is_client,
}
use godot_godaemon_multiplay.Peer.Action.{Session}
use godot_godaemon_multiplay.Peer.Settings.{is_server}
use godot_godaemon_multiplay.Peer.Registry.{add_connection, setup_loopback_connection}
use godot_godaemon_multiplay.Peer.Lifecycle.{create_host, open_host, create_client, open_client}
use godot_godaemon_multiplay.Peer.Callback.{
  is_ignored, close_handle, accept_handle, on_arrived, client_accepted, on_accepted,
  close_if_active, connected_client_ended, client_ended, server_ended, on_ended,
  network_connection_status_changed,
}
use godot_godaemon_multiplay.Peer.Control.{
  client_after, SameControl, Whenever, Whenever-mono, Keeps,
}
use godot_godaemon_multiplay.Peer.Phases.{
  Phase, idle, hosting, joining, joined, looped, stay, serve, dial, pair_up, join, IsIn, Moves,
  KeepsOrLeaves, KeepsOrLeaves-Moves, close-KeepsOrLeaves, disconnect_peer-KeepsOrLeaves,
}

-- The peer was not in use, and its control fields now have the values.
abbrev Opens : Mode → ConnectionStatus → SteamMultiplayerPeer → SteamMultiplayerPeer → Type 0
Opens mode status p q =
    (is_active p ≡ false)
    × (q.active_mode ≡ mode)
    × (q.connection_status ≡ status)
    × (is_server q ≡ (if mode_is_client mode then false else true))

-- A client that was not connected is connected now.
abbrev Accepts : SteamMultiplayerPeer → SteamMultiplayerPeer → Type 0
Accepts p q =
    (is_connected p.connection_status ≡ false)
    × (is_server p ≡ false)
    × (q.connection_status ≡ connected)
    × (q.active_mode ≡ p.active_mode)
    × (q.unique_id ≡ p.unique_id)
    × (q.is_loopback_client ≡ p.is_loopback_client)

module _ {W : Type 0} (env : Env W) (conv : Conversions) where
  create_host-Opens :
      (port : ℕ) (s : Session W)
      → Whenever (create_host env conv port s) (λ _ t.
        SameControl s.peer t.peer
        ⊎ (Opens mode_server connected s.peer t.peer
            × (t.peer.is_loopback_client ≡ s.peer.is_loopback_client)))
  unfolding create_host open_host
  create_host-Opens port s = ground arith

  create_client-Opens :
      (user port : ℕ) (s : Session W)
      → GivesClientIds env
      → Whenever (create_client env conv user port s) (λ _ t.
        SameControl s.peer t.peer
        ⊎ (SameControl (record s.peer { unique_id = 0 }) t.peer × (is_active s.peer ≡ false))
        ⊎ (Opens mode_client connecting s.peer t.peer
            × (t.peer.is_loopback_client ≡ s.peer.is_loopback_client)))
  unfolding create_client open_client
  create_client-Opens user port s ids = ground (arith, ids s.world)

  client_joined-control :
      (identity handle : ℕ) (s : Session W)
      → GivesClientIds env
      → Whenever (client_joined env conv identity handle s) (λ _ t.
        (t.peer.active_mode ≡ mode_client)
        × (t.peer.connection_status ≡ connected)
        × (is_server t.peer ≡ false)
        × (t.peer.is_loopback_client ≡ true))
  unfolding client_joined setup_loopback_connection
  client_joined-control identity handle s ids = ground (arith, ids s.world)

  create_loopback_client-Opens :
      (host : Option SteamMultiplayerPeer) (s : Session W)
      → GivesClientIds env
      → Whenever (client_after (create_loopback_client env conv host s)) (λ _ t.
        SameControl s.peer t.peer
        ⊎ (Opens mode_client connected s.peer t.peer × (t.peer.is_loopback_client ≡ true)))
  unfolding create_loopback_client join_given_host join_host apply_both client_after
  create_loopback_client-Opens none s ids = ground arith
  create_loopback_client-Opens (some host) s ids =
      grind (arith, λ (a b : ℕ) (t : Session W). client_joined-control a b t ids)

module _ {W : Type 0} (env : Env W) where
  on_arrived-Keeps : (ev : StatusChanged) (s : Session W) → Keeps s (on_arrived env ev s)
  unfolding on_arrived accept_handle close_handle
  on_arrived-Keeps ev s = ground arith

  client_accepted-Accepts :
      (ev : StatusChanged) (s : Session W)
      → is_connected s.peer.connection_status ≡ false
      → is_server s.peer ≡ false
      → Whenever (client_accepted env ev s) (λ _ t. Accepts s.peer t.peer)
  unfolding client_accepted add_connection
  client_accepted-Accepts ev s away cl = ground arith

  on_accepted-lem :
      (ev : StatusChanged) (s : Session W)
      → Whenever (on_accepted env ev s) (λ _ t. KeepsOrLeaves s.peer t.peer ⊎ Accepts s.peer t.peer)
  unfolding on_accepted add_connection
  on_accepted-lem ev s = ground (arith, client_accepted-Accepts ev s)

  close_if_active-KeepsOrLeaves :
      (s : Session W) → Whenever (close_if_active env s) (λ _ t. KeepsOrLeaves s.peer t.peer)
  unfolding close_if_active
  close_if_active-KeepsOrLeaves s = ground (arith, close-KeepsOrLeaves env s)

  connected_client_ended-KeepsOrLeaves :
      (s : Session W) → Whenever (connected_client_ended env s) (λ _ t. KeepsOrLeaves s.peer t.peer)
  unfolding connected_client_ended
  connected_client_ended-KeepsOrLeaves s =
      grind (arith, disconnect_peer-KeepsOrLeaves env 1 true s, close_if_active-KeepsOrLeaves)

  client_ended-KeepsOrLeaves :
      (s : Session W) → Whenever (client_ended env s) (λ _ t. KeepsOrLeaves s.peer t.peer)
  unfolding client_ended
  client_ended-KeepsOrLeaves s =
      ground (arith, connected_client_ended-KeepsOrLeaves s, close_if_active-KeepsOrLeaves s)

  server_ended-KeepsOrLeaves :
      (steam_id : ℕ) (s : Session W)
      → Whenever (server_ended env steam_id s) (λ _ t. KeepsOrLeaves s.peer t.peer)
  unfolding server_ended
  server_ended-KeepsOrLeaves steam_id s = grind (arith, disconnect_peer-KeepsOrLeaves)

  on_ended-KeepsOrLeaves :
      (ev : StatusChanged) (s : Session W)
      → Whenever (on_ended env ev s) (λ _ t. KeepsOrLeaves s.peer t.peer)
  unfolding on_ended close_handle
  on_ended-KeepsOrLeaves ev s =
      ground (arith, server_ended-KeepsOrLeaves ev.identity_remote s, client_ended-KeepsOrLeaves s)

  pub network_connection_status_changed-lem :
      (ev : StatusChanged) (s : Session W)
      → Whenever (network_connection_status_changed env ev s) (λ _ t.
        KeepsOrLeaves s.peer t.peer
        ⊎ (Accepts s.peer t.peer
            × (ev.connection ≡ s.peer.connection)
            × (s.peer.is_loopback_client ≡ false)))
  unfolding network_connection_status_changed is_ignored
  network_connection_status_changed-lem ev s =
      ground (arith, on_arrived-Keeps ev s, on_accepted-lem ev s, on_ended-KeepsOrLeaves ev s)

-- Where the control fields that a method leaves put the peer.
hosts-Moves :
    (a : Phase) (p q : SteamMultiplayerPeer)
    → IsIn a p
    → SameControl p q
      ⊎ (Opens mode_server connected p q × (q.is_loopback_client ≡ p.is_loopback_client))
    → Moves a q
hosts-Moves a p q h (inl same) = KeepsOrLeaves-Moves a p q h (inl same)
hosts-Moves idle p q h (inr opened) = (hosting, serve, ground arith)
hosts-Moves _ p q h (inr opened) = absurd (ground arith)

dials-Moves :
    (a : Phase) (p q : SteamMultiplayerPeer)
    → IsIn a p
    → SameControl p q
      ⊎ (SameControl (record p { unique_id = 0 }) q × (is_active p ≡ false))
      ⊎ (Opens mode_client connecting p q × (q.is_loopback_client ≡ p.is_loopback_client))
    → Moves a q
dials-Moves a p q h (inl same) = KeepsOrLeaves-Moves a p q h (inl same)
dials-Moves idle p q h (inr (inl failed)) = (idle, stay, ground arith)
dials-Moves idle p q h (inr (inr opened)) = (joining, dial, ground arith)
dials-Moves _ p q h (inr other) = absurd (ground arith)

pairs-Moves :
    (a : Phase) (p q : SteamMultiplayerPeer)
    → IsIn a p
    → SameControl p q ⊎ (Opens mode_client connected p q × (q.is_loopback_client ≡ true))
    → Moves a q
pairs-Moves a p q h (inl same) = KeepsOrLeaves-Moves a p q h (inl same)
pairs-Moves idle p q h (inr opened) = (looped, pair_up, ground arith)
pairs-Moves _ p q h (inr opened) = absurd (ground arith)

joins-Moves :
    (a : Phase) (p q : SteamMultiplayerPeer)
    → IsIn a p
    → is_active p ≡ true
    → Accepts p q
    → Moves a q
joins-Moves joining p q h active accepted = (joined, join, ground arith)
joins-Moves _ p q h active accepted = absurd (ground arith)

module _ {W : Type 0} (env : Env W) (conv : Conversions) (a : Phase) (s : Session W)
    (h : IsIn a s.peer) where
  pub create_host-Moves :
      (port : ℕ) → Whenever (create_host env conv port s) (λ _ t. Moves a t.peer)
  create_host-Moves port =
      Whenever-mono _ (λ _ t. Moves a t.peer) _ (create_host-Opens env conv port s)
        (λ _ t. hosts-Moves a s.peer t.peer h)

  pub create_client-Moves :
      GivesClientIds env
      → (user port : ℕ) → Whenever (create_client env conv user port s) (λ _ t. Moves a t.peer)
  create_client-Moves ids user port =
      Whenever-mono _ (λ _ t. Moves a t.peer) _ (create_client-Opens env conv user port s ids)
        (λ _ t. dials-Moves a s.peer t.peer h)

  pub create_loopback_client-Moves :
      GivesClientIds env
      → (other : Option SteamMultiplayerPeer)
      → Whenever (client_after (create_loopback_client env conv other s)) (λ _ t. Moves a t.peer)
  create_loopback_client-Moves ids other =
      Whenever-mono _ (λ _ t. Moves a t.peer) _ (create_loopback_client-Opens env conv other s ids)
        (λ _ t. pairs-Moves a s.peer t.peer h)

  -- A report on the peer's own connection, where no session is open, would be out of time.
  pub network_connection_status_changed-Moves :
      (ev : StatusChanged)
      → (is_active s.peer ≡ true) ⊎ (ev.connection ≢ s.peer.connection)
      → Whenever (network_connection_status_changed env ev s) (λ _ t. Moves a t.peer)
  network_connection_status_changed-Moves ev timely =
      Whenever-mono _ (λ _ t. Moves a t.peer) _ (network_connection_status_changed-lem env ev s)
        (λ _ t. reported t timely)
    where
      reported :
          (t : Session W)
          → (is_active s.peer ≡ true) ⊎ (ev.connection ≢ s.peer.connection)
          → KeepsOrLeaves s.peer t.peer
            ⊎ (Accepts s.peer t.peer
                × (ev.connection ≡ s.peer.connection)
                × (s.peer.is_loopback_client ≡ false))
          → Moves a t.peer
      reported t timely (inl kept) = KeepsOrLeaves-Moves a s.peer t.peer h kept
      reported t (inl active) (inr (accepted, same, own)) =
          joins-Moves a s.peer t.peer h active accepted
      reported t (inr other) (inr (accepted, same, own)) = absurd (other same)
