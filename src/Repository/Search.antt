-- ===== src/Repository/Search.antt =====
-- The search for a free id ends.
use godot_godaemon_multiplay.Prelude.{
  ℕ, zero, suc, ◌+◌, ◌%◌, ◌≤◌, ◌<◌, ◌≡◌, ◌≢◌, refl, sym, ◌∙◌, inl, inr, true, false, some, [], ◌∷◌,
  arith, length, ◌==◌, Bool-cases,
}
use godot_godaemon_multiplay.HashMap.{HashMap, lookup, has, erase, lookup-erase}
use godot_godaemon_multiplay.Repository.{next_id, find_id}

-- The id that the search tests after so many steps.
abbrev later_id : ℕ → ℕ → ℕ
later_id i current = (current + i) % 4294967296

next_id-later_id : (current : ℕ) → current < 4294967296 → next_id current ≡ later_id 1 current
unfolding next_id
next_id-later_id current h = ground arith

length-erase_le : (key : ℕ) (ids : HashMap ℕ) → length (erase key ids) ≤ length ids
unfolding erase
length-erase_le key [] = omega arith
length-erase_le key ((stored, v) ∷ ids) = ground (arith, length-erase_le key ids)

length-erase_lt :
    (key : ℕ) (ids : HashMap ℕ) → has key ids ≡ true → length (erase key ids) < length ids
unfolding erase has lookup
length-erase_lt key [] h = absurd (ground arith)
length-erase_lt key ((stored, v) ∷ ids) h = elim (Bool-cases (stored == key)) [
  | inl same ↦ rw same (omega (arith, length-erase_le key ids))
  | inr other ↦ ground (arith, length-erase_lt key ids)
]

has-erase : (key j : ℕ) (ids : HashMap ℕ) → key ≢ j → has j (erase key ids) ≡ has j ids
unfolding has
has-erase key j ids ne = ground (arith, lookup-erase key j ids)

next_id_small : (current : ℕ) → current < 4294967296 → next_id current < 4294967296
unfolding next_id
next_id_small current h = ground arith

later_id-next_id :
    (i current : ℕ) → current < 4294967296 → later_id i (next_id current) ≡ later_id (suc i) current
later_id-next_id i current h = omega (arith, next_id-later_id current h)

-- An id that the search does not come to can be left out.
find_id-erase :
    (fuel current gone : ℕ) (ids : HashMap ℕ)
    → current < 4294967296
    → ((i : ℕ) → i < fuel → gone ≢ later_id i current)
    → find_id fuel current (erase gone ids) ≡ find_id fuel current ids
unfolding find_id
find_id-erase zero current gone ids small ne = refl
find_id-erase (suc fuel) current gone ids small ne =
    let here : gone ≢ current = λ e. ne 0 (omega arith) (omega (arith, e)) in
    let later =
      find_id-erase fuel (next_id current) gone ids (next_id_small current small)
        (λ i h e. ne (suc i) (omega arith) (e ∙ later_id-next_id i current small)) in
    rw (has-erase gone current ids here, later) refl

-- What the search finds is free.
find_id_free :
    (fuel current id : ℕ) (ids : HashMap ℕ)
    → current < 4294967296
    → find_id fuel current ids ≡ some id
    → (has id ids ≡ false) × (id < 4294967296)
unfolding find_id
find_id_free zero current id ids small h = absurd (ground arith)
find_id_free (suc fuel) current id ids small h = elim (Bool-cases (has current ids)) [
  | inl taken ↦
      find_id_free fuel (next_id current) id ids (next_id_small current small) (ground arith)
  | inr free ↦ ground arith
]

pub find_id-ends :
    (fuel current : ℕ) (ids : HashMap ℕ)
    → current < 4294967296
    → length ids < fuel
    → fuel ≤ 4294967296
    → (id : ℕ) × (find_id fuel current ids ≡ some id) × (has id ids ≡ false) × (id < 4294967296)
unfolding find_id
find_id-ends zero current ids small more few = absurd (omega arith)
find_id-ends (suc fuel) current ids small more few = elim (Bool-cases (has current ids)) [
  | inl taken ↦
      let later = next_id_small current small in
      let (id, e, _, _) =
        find_id-ends fuel (next_id current) (erase current ids) later
          (omega (arith, length-erase_lt current ids taken)) (omega arith) in
      let found : find_id fuel (next_id current) ids ≡ some id =
        sym (
          find_id-erase fuel (next_id current) current ids later
            (λ i h same. absurd (omega (arith, same, later_id-next_id i current small))))
        ∙ e in
      let (free, fits) = find_id_free fuel (next_id current) id ids later found in
      (id, rw (taken, found) refl, free, fits)
  | inr free ↦ (current, ground arith, free, small)
]
