-- ===== src/Peer/Phases.antt =====
-- The phases of a peer, and the diagram that its methods follow.
use godot_godaemon_multiplay.Prelude.{
  ℕ, ◌≡◌, refl, ◌⊎◌, inl, inr, Bool, true, false, [], ◌∷◌, arith,
}
use godot_godaemon_multiplay.HashMap.{HashMap}
use godot_godaemon_multiplay.Godot.{disconnected, connecting, connected, is_connected}
use godot_godaemon_multiplay.Steam.{Env}
use godot_godaemon_multiplay.Peer.State.{
  SteamMultiplayerPeer, mode_none, mode_server, mode_client, is_active,
}
use godot_godaemon_multiplay.Peer.Action.{Session}
use godot_godaemon_multiplay.Peer.Settings.{is_server}
use godot_godaemon_multiplay.Peer.Lifecycle.{
  reset, forget_peer, forget_connections, close_loop, close, close_if_forced, drop_peer,
  disconnect_peer,
}
use godot_godaemon_multiplay.Peer.Control.{SameControl, Whenever}

pub data Phase : Type 0 where
  idle hosting joining joined looped : Phase

pub data HasSession : Phase → Type 0 where
  hosting_session : HasSession hosting
  joined_session : HasSession joined
  looped_session : HasSession looped

infix 40 ◌⟶◌
-- The diagram. A client that is joining can only join: no edge leads back from there.
pub data ◌⟶◌ : Phase → Phase → Type 0 where
  stay : {a : Phase} → a ⟶ a
  serve : idle ⟶ hosting
  dial : idle ⟶ joining
  pair_up : idle ⟶ looped
  join : joining ⟶ joined
  leave : {a : Phase} → HasSession a → a ⟶ idle

-- The control fields in each phase.
abbrev pub IsIn : Phase → SteamMultiplayerPeer → Type 0
IsIn idle p =
    (p.active_mode ≡ mode_none)
    × (p.connection_status ≡ disconnected)
    × (p.unique_id ≡ 0)
    × (p.is_loopback_client ≡ false)
IsIn hosting p =
    (p.active_mode ≡ mode_server)
    × (p.connection_status ≡ connected)
    × (p.unique_id ≡ 1)
    × (p.is_loopback_client ≡ false)
IsIn joining p =
    (p.active_mode ≡ mode_client)
    × (p.connection_status ≡ connecting)
    × (is_server p ≡ false)
    × (p.is_loopback_client ≡ false)
IsIn joined p =
    (p.active_mode ≡ mode_client)
    × (p.connection_status ≡ connected)
    × (is_server p ≡ false)
    × (p.is_loopback_client ≡ false)
IsIn looped p =
    (p.active_mode ≡ mode_client)
    × (p.connection_status ≡ connected)
    × (is_server p ≡ false)
    × (p.is_loopback_client ≡ true)

-- An edge of the diagram leads to the peer's phase.
abbrev pub Moves : Phase → SteamMultiplayerPeer → Type 0
Moves a q = (b : Phase) × (a ⟶ b) × IsIn b q

-- The peer had a session and is idle.
abbrev pub Leaves : SteamMultiplayerPeer → SteamMultiplayerPeer → Type 0
Leaves p q = (is_active p ≡ true) × (is_connected p.connection_status ≡ true) × IsIn idle q

SameControl-IsIn : (a : Phase) (p q : SteamMultiplayerPeer) → SameControl p q → IsIn a p → IsIn a q
SameControl-IsIn idle p q same h = ground arith
SameControl-IsIn hosting p q same h = ground arith
SameControl-IsIn joining p q same h = ground arith
SameControl-IsIn joined p q same h = ground arith
SameControl-IsIn looped p q same h = ground arith

HasSession-of_connected :
    (a : Phase) (p : SteamMultiplayerPeer)
    → IsIn a p
    → is_connected p.connection_status ≡ true
    → HasSession a
HasSession-of_connected idle p h c = absurd (ground arith)
HasSession-of_connected hosting p h c = hosting_session
HasSession-of_connected joining p h c = absurd (ground arith)
HasSession-of_connected joined p h c = joined_session
HasSession-of_connected looped p h c = looped_session

-- What most methods do to the phase: they keep it, or leave the session.
abbrev pub KeepsOrLeaves : SteamMultiplayerPeer → SteamMultiplayerPeer → Type 0
KeepsOrLeaves p q = SameControl p q ⊎ Leaves p q

pub KeepsOrLeaves-Moves :
    (a : Phase) (p q : SteamMultiplayerPeer) → IsIn a p → KeepsOrLeaves p q → Moves a q
KeepsOrLeaves-Moves a p q h (inl same) = (a, stay, SameControl-IsIn a p q same h)
KeepsOrLeaves-Moves a p q h (inr (active, here, left)) =
    (idle, leave (HasSession-of_connected a p h here), left)

module _ {W : Type 0} (env : Env W) where
  close_loop-peer :
      (m : HashMap ℕ) (s : Session W) → Whenever (close_loop env m s) (λ _ t. t.peer ≡ s.peer)
  unfolding close_loop
  close_loop-peer [] s = refl
  close_loop-peer ((k, a) ∷ m) s = grind (arith, λ (t : Session W). close_loop-peer m t)

  pub close-KeepsOrLeaves :
      (s : Session W) → Whenever (close env s) (λ _ t. KeepsOrLeaves s.peer t.peer)
  unfolding close reset
  close-KeepsOrLeaves s = ground (arith, close_loop-peer s.peer.connections_by_steam_id64 s)

  drop_peer-KeepsOrLeaves :
      (peer : ℕ) (force : Bool) (c : _) (s : Session W)
      → Whenever (drop_peer env peer force c s) (λ _ t. KeepsOrLeaves s.peer t.peer)
  unfolding drop_peer close_if_forced forget_peer forget_connections
  drop_peer-KeepsOrLeaves peer force c s = grind (arith, close-KeepsOrLeaves)

  pub disconnect_peer-KeepsOrLeaves :
      (peer : ℕ) (force : Bool) (s : Session W)
      → Whenever (disconnect_peer env peer force s) (λ _ t. KeepsOrLeaves s.peer t.peer)
  unfolding disconnect_peer
  disconnect_peer-KeepsOrLeaves peer force s = grind (arith, drop_peer-KeepsOrLeaves)
