-- ===== src/Peer/Refs.antt =====
-- Facts about `Ref`s: what a map's entries refer to, and how writes and new objects keep that.
use godot_godaemon_multiplay.Prelude.{
  ℕ, zero, suc, ◌≡◌, refl, ap, subst, ◌∙◌, ◌≢◌, inl, inr, some, List, [], ◌∷◌, ◌++◌, arith, ◌==◌,
  ==_iff, Bool-cases, get_elem?-set_self, get_elem?-set_ne, get_elem?-append_old,
}
use godot_godaemon_multiplay.HashMap.{HashMap, lookup, insert, erase}
use godot_godaemon_multiplay.Connection.{SteamConnection}
use godot_godaemon_multiplay.Peer.State.{load, store}

abbrev pub Objects : Type 0
Objects = List SteamConnection

pub load-store_self :
    (a : ℕ) (objects : Objects) (c d : SteamConnection)
    → load a objects ≡ some d
    → load a (store a c objects) ≡ some c
load-store_self zero objects c d h = cc
load-store_self (suc i) objects c d h = get_elem?-set_self objects i c d h

pub load-store_ne :
    (a b : ℕ) (objects : Objects) (c : SteamConnection)
    → a ≢ b
    → load b (store a c objects) ≡ load b objects
load-store_ne zero b objects c h = refl
load-store_ne (suc i) zero objects c h = refl
load-store_ne (suc i) (suc j) objects c h = get_elem?-set_ne objects i j c (λ e. h (ap suc e))

pub load-append :
    (a : ℕ) (objects : Objects) (c d : SteamConnection)
    → load a objects ≡ some d
    → load a (objects ++ c ∷ []) ≡ some d
load-append zero objects c d h = cc
load-append (suc i) objects c d h = get_elem?-append_old objects i c d h

-- Every entry of the map refers to an object that fits its key.
abbrev pub Fits : (ℕ → SteamConnection → Type 0) → HashMap ℕ → Objects → Type 0
Fits P [] objects = Unit {0}
Fits P ((key, a) ∷ m) objects =
    ((c : SteamConnection) × (load a objects ≡ some c) × P key c) × Fits P m objects

module _ (P : ℕ → SteamConnection → Type 0) where
  pub Fits-lookup :
      (m : HashMap ℕ) (objects : Objects) (key a : ℕ)
      → lookup key m ≡ some a
      → Fits P m objects
      → (c : SteamConnection) × (load a objects ≡ some c) × P key c
  unfolding lookup
  Fits-lookup [] objects key a h all = cc
  Fits-lookup ((j, b) ∷ m) objects key a h ((c, there, fit), others) =
      elim (Bool-cases (j == key)) [
        | inl same ↦ (c, ground (arith, there), subst (λ x. P x c) ((==_iff j key).0 same) fit)
        | inr other ↦ Fits-lookup m objects key a (ground arith) others
      ]

  pub Fits-insert :
      (m : HashMap ℕ) (objects : Objects) (k a : ℕ) (c : SteamConnection)
      → load a objects ≡ some c
      → P k c
      → Fits P m objects
      → Fits P (insert k a m) objects
  unfolding insert
  Fits-insert [] objects k a c there fit all = ((c, there, fit), tt)
  Fits-insert ((j, b) ∷ m) objects k a c there fit (first, others) = elim (Bool-cases (j == k)) [
    | inl same ↦ rw same ((c, there, fit), others)
    | inr other ↦ rw other (first, Fits-insert m objects k a c there fit others)
  ]

  pub Fits-erase :
      (m : HashMap ℕ) (objects : Objects) (k : ℕ) → Fits P m objects → Fits P (erase k m) objects
  unfolding erase
  Fits-erase [] objects k all = tt
  Fits-erase ((j, b) ∷ m) objects k (first, others) = elim (Bool-cases (j == k)) [
    | inl same ↦ rw same (Fits-erase m objects k others)
    | inr other ↦ rw other (first, Fits-erase m objects k others)
  ]

  pub Fits-append :
      (m : HashMap ℕ) (objects : Objects) (c : SteamConnection)
      → Fits P m objects
      → Fits P m (objects ++ c ∷ [])
  Fits-append [] objects c all = tt
  Fits-append ((j, b) ∷ m) objects c ((d, there, fit), others) =
      ((d, load-append b objects c d there, fit), Fits-append m objects c others)

  pub Fits-store :
      (m : HashMap ℕ) (objects : Objects) (a : ℕ) (c c' : SteamConnection)
      → load a objects ≡ some c
      → ((key : ℕ) → P key c → P key c')
      → Fits P m objects
      → Fits P m (store a c' objects)
  Fits-store [] objects a c c' there keeps all = tt
  Fits-store ((j, b) ∷ m) objects a c c' there keeps ((d, found, fit), others) =
      let rest = Fits-store m objects a c c' there keeps others in
      elim (Bool-cases (a == b)) [
        | inl same ↦
            let e = (==_iff a b).0 same in
            (
              (
                c',
                rw (← e) (load-store_self a objects c' c there),
                keeps j (subst (P j) (ground (arith, found, there, e)) fit),
              ),
              rest,
            )
        | inr other ↦ ((d, load-store_ne a b objects c' (ground arith) ∙ found, fit), rest)
      ]
