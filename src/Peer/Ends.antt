-- ===== src/Peer/Ends.antt =====
-- Total correctness of actions: the action does not crash, and its result and session satisfy a
-- condition.
use godot_godaemon_multiplay.Prelude.{
  ℕ, ◌≡◌, refl, sym, subst, arith, Option, none, some, Bool, true, false, if◌then◌else◌,
}
use godot_godaemon_multiplay.Connection.{SteamConnection}
use godot_godaemon_multiplay.Peer.State.{object_at, write_object}
use godot_godaemon_multiplay.Peer.Action.{Session, Action, on_connection, read_connection}

module _ {W A : Type 0} where
  abbrev pub Ends : Option (A × Session W) → (A → Session W → Type 0) → Type 0
  Ends none Q = ⊥
  Ends (some (a, t)) Q = Q a t

  pub Ends-mono :
      (Q R : A → Session W → Type 0) (r : Option (A × Session W))
      → Ends r Q
      → ((a : A) (t : Session W) → Q a t → R a t)
      → Ends r R
  Ends-mono Q R none h k = h
  Ends-mono Q R (some (a, t)) h k = k a t h

  pub Ends-of_eq :
      (Q : A → Session W → Type 0) (r : Option (A × Session W)) (a : A) (t : Session W)
      → r ≡ some (a, t)
      → Q a t
      → Ends r Q
  Ends-of_eq Q r a t e h = subst (λ x. Ends x Q) (sym e) h

  pub Ends-eq :
      (Q : A → Session W → Type 0) (r r' : Option (A × Session W)) → r ≡ r' → Ends r' Q → Ends r Q
  Ends-eq Q r r' e h = subst (λ x. Ends x Q) (sym e) h

  -- An action that ends gives a result.
  pub Ends-some :
      (Q : A → Session W → Type 0) (r : Option (A × Session W))
      → Ends r Q
      → (a : A) × (t : Session W) × (r ≡ some (a, t)) × Q a t
  Ends-some Q none h = absurd h
  Ends-some Q (some (a, t)) h = (a, t, refl, h)

module _ {W A B : Type 0} (Q : A → Session W → Type 0) (R : B → Session W → Type 0) where
  -- The rule for `m >>= f`, in the form to which its call computes.
  pub Ends-bind :
      (r : Option (A × Session W)) (f : A → Action W B)
      → Ends r Q
      → ((a : A) (t : Session W) → Q a t → Ends (f a t) R)
      → Ends (elim r [ none ↦ none | some (a, t) ↦ f a t ]) R
  Ends-bind none f h k = h
  Ends-bind (some (a, t)) f h k = k a t h

module _ {W A : Type 0} (R : A → Session W → Type 0) where
  pub Ends-if :
      (b : Bool) (x y : Option (A × Session W))
      → (b ≡ true → Ends x R)
      → (b ≡ false → Ends y R)
      → Ends (if b then x else y) R
  Ends-if true x y hx hy = hx refl
  Ends-if false x y hx hy = hy refl

module _ {W A : Type 0} where
  pub on_connection_eq :
      (a : ℕ) (f : SteamConnection → W → Option (A × SteamConnection × W)) (s : Session W)
      (c c' : SteamConnection) (x : A) (w : W)
      → object_at a s.peer ≡ some c
      → f c s.world ≡ some (x, c', w)
      → on_connection a f s ≡ some (x, record { peer = write_object a c' s.peer; world = w })
  on_connection_eq a f s c c' x w there e = ground (arith, there, e)

  pub read_connection_eq :
      (a : ℕ) (f : SteamConnection → W → Option (A × W)) (s : Session W) (c : SteamConnection)
      (x : A) (w : W)
      → object_at a s.peer ≡ some c
      → f c s.world ≡ some (x, w)
      → read_connection a f s ≡ some (x, record s { world = w })
  read_connection_eq a f s c x w there e = ground (arith, there, e)
