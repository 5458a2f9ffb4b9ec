-- ===== src/HashMap.antt =====
-- Godot's `HashMap<K, V>` with number keys (godot-cpp, a library that the program calls): an
-- association list in the order of insertion, which is the order its iterators take. `insert` is
-- `m[k] = v`: it overwrites in place or appends.
use godot_godaemon_multiplay.Prelude.{
  ℕ, ◌≡◌, refl, Bool, true, false, Option, none, some, List, [], ◌∷◌, arith, ◌==◌, if◌then◌else◌,
}

abbrev pub HashMap {ℓ} : Type ℓ → Type ℓ
HashMap V = List (ℕ × V)

module _ {ℓ} {V : Type ℓ} where
  unfoldable pub lookup : ℕ → HashMap V → Option V
  lookup key [] = none
  lookup key ((stored, value) ∷ entries) = if stored == key then some value else lookup key entries

  unfoldable pub has : ℕ → HashMap V → Bool
  has key entries = elim (lookup key entries) [ none ↦ false | some _ ↦ true ]

  unfoldable pub insert : ℕ → V → HashMap V → HashMap V
  insert key v [] = (key, v) ∷ []
  insert key v ((stored, old) ∷ entries) =
      if stored == key then (key, v) ∷ entries else (stored, old) ∷ insert key v entries

  unfoldable pub erase : ℕ → HashMap V → HashMap V
  erase key [] = []
  erase key ((stored, old) ∷ entries) =
      let rest = erase key entries in if stored == key then rest else (stored, old) ∷ rest

  pub lookup-insert :
      (key j : ℕ) (v : V) (entries : HashMap V)
      → lookup j (insert key v entries) ≡ (if key == j then some v else lookup j entries)
  unfolding lookup insert
  lookup-insert key j v [] = refl
  lookup-insert key j v ((i, w) ∷ entries) = ground (arith, lookup-insert key j v entries)

  pub lookup-erase :
      (key j : ℕ) (entries : HashMap V)
      → lookup j (erase key entries) ≡ (if key == j then none else lookup j entries)
  unfolding lookup erase
  lookup-erase key j [] = ground arith
  lookup-erase key j ((i, w) ∷ entries) = ground (arith, lookup-erase key j entries)

  pub lookup_nil : (key : ℕ) → lookup key [] ≡ none
  unfolding lookup
  lookup_nil key = refl
