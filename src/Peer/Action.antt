-- ===== src/Peer/Action.antt =====
-- Methods that change the peer and the world: `none` is a crash.
use godot_godaemon_multiplay.Prelude.{ℕ, Option, none, some}
use godot_godaemon_multiplay.Connection.{SteamConnection}
use godot_godaemon_multiplay.Peer.State.{SteamMultiplayerPeer, object_at, write_object}

pub record Session (W : Type 0) : Type 0 where
  pub peer : SteamMultiplayerPeer
  pub world : W

abbrev pub Action : Type 0 → Type 0 → Type 0
Action W A = Session W → Option (A × Session W)

module _ {W A : Type 0} where
  abbrev pub pure : A → Action W A
  pure a s = some (a, s)

  abbrev pub gets : (SteamMultiplayerPeer → A) → Action W A
  gets f s = some (f s.peer, s)

  -- A use of the peer that may crash.
  abbrev pub lift : (SteamMultiplayerPeer → Option A) → Action W A
  lift f s = elim (f s.peer) [ none ↦ none | some a ↦ some (a, s) ]

  -- A call of Steam.
  abbrev pub call : (W → A × W) → Action W A
  call f s = let (a, w) = f s.world in some (a, record s { world = w })

module _ {W : Type 0} where
  abbrev pub modify : (SteamMultiplayerPeer → SteamMultiplayerPeer) → Action W (Unit {0})
  modify f s = some (tt, record s { peer = f s.peer })

  abbrev pub call_ : (W → W) → Action W (Unit {0})
  call_ f s = some (tt, record s { world = f s.world })

module _ {W A : Type 0} {B : Type 0} where
  infixl 5 ◌>>=◌ ◌>>◌
  abbrev pub ◌>>=◌ : Action W A → (A → Action W B) → Action W B
  ◌>>=◌ m f s = elim (m s) [ none ↦ none | some (a, t) ↦ f a t ]

  abbrev pub ◌>>◌ : Action W A → Action W B → Action W B
  ◌>>◌ m k s = elim (m s) [ none ↦ none | some (a, t) ↦ k t ]

module _ {W A : Type 0} where
  -- A method of the connection behind a `Ref`, which may change the connection and the world.
  abbrev pub on_connection :
      ℕ → (SteamConnection → W → Option (A × SteamConnection × W)) → Action W A
  on_connection a f s = elim (object_at a s.peer) [
    | none ↦ none
    | some c ↦ elim (f c s.world) [
      | none ↦ none
      | some (x, c', w) ↦ some (x, record { peer = write_object a c' s.peer; world = w })
    ]
  ]

  -- A method of the connection behind a `Ref` that leaves the connection as it is.
  abbrev pub read_connection : ℕ → (SteamConnection → W → Option (A × W)) → Action W A
  read_connection a f s = elim (object_at a s.peer) [
    | none ↦ none
    | some c ↦ elim (f c s.world) [ none ↦ none | some (x, w) ↦ some (x, record s { world = w }) ]
  ]
