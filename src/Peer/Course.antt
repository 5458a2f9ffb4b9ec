-- ===== src/Peer/Course.antt =====
-- Runs in the diagram of phases.
use godot_godaemon_multiplay.Prelude.{◌≡◌, subst, ◌≢◌, ◌⊎◌, true, some, List, [], ◌∷◌, arith}
use godot_godaemon_multiplay.Steam.{Env, GivesClientIds}
use godot_godaemon_multiplay.Config.{Conversions}
use godot_godaemon_multiplay.Peer.State.{is_active}
use godot_godaemon_multiplay.Peer.Action.{Session}
use godot_godaemon_multiplay.Peer.Phases.{Phase, ◌⟶◌}
use godot_godaemon_multiplay.Peer.Runs.{Event, status_changed, perform}

infix 40 ◌⟶*◌
-- Any number of edges.
pub data ◌⟶*◌ : Phase → Phase → Type 0 where
  here : {a : Phase} → a ⟶* a
  next : {a b c : Phase} → a ⟶ b → b ⟶* c → a ⟶* c

module _ {W : Type 0} (env : Env W) (conv : Conversions) where
  -- A report on the peer's own connection comes only while a session is open or being joined.
  abbrev pub IsTimely : Event → Session W → Type 0
  IsTimely (status_changed ev) s = (is_active s.peer ≡ true) ⊎ (ev.connection ≢ s.peer.connection)
  IsTimely _ s = Unit {0}

module _ {W : Type 0} (env : Env W) (conv : Conversions) (up : env.sockets ≡ true)
    (ids : GivesClientIds env) where
  -- Each event comes in time when its turn comes.
  abbrev pub AreTimely : List Event → Session W → Type 0
  AreTimely [] s = Unit {0}
  AreTimely (event ∷ rest) s =
      IsTimely env conv event s
      × ((t : Session W) → perform env conv event s ≡ some t → AreTimely rest t)

  pub AreTimely-step :
      (event : Event) (rest : List Event) (s t : Session W)
      → perform env conv event s ≡ some t
      → IsTimely env conv event s
      → AreTimely rest t
      → AreTimely (event ∷ rest) s
  AreTimely-step event rest s t e timely later =
      (timely, λ u f. subst (AreTimely rest) (ground (arith, e, f)) later)
