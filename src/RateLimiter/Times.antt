-- ===== src/RateLimiter/Times.antt =====
-- Times in order, and which of them are past.
use godot_godaemon_multiplay.Prelude.{
  ℕ, ◌+◌, ◌≡◌, refl, ap, inl, inr, Bool, true, false, List, [], ◌∷◌, ◌++◌, length, arith,
  if◌then◌else◌, Bool-cases,
}
use godot_godaemon_multiplay.RateLimiter.{clear_old}

module _ {T : Type 0} where
  abbrev pub All : (T → Type 0) → List T → Type 0
  All P [] = Unit {0}
  All P (x ∷ xs) = P x × All P xs

  pub All-append : (P : T → Type 0) (xs ys : List T) → All P xs → All P ys → All P (xs ++ ys)
  All-append P [] ys h k = k
  All-append P (x ∷ xs) ys (p, h) k = (p, All-append P xs ys h k)

  pub All-map : (P Q : T → Type 0) (xs : List T) → ((x : T) → P x → Q x) → All P xs → All Q xs
  All-map P Q [] f h = h
  All-map P Q (x ∷ xs) f (p, h) = (f x p, All-map P Q xs f h)

module _ {T : Type 0} (is_past : T → T → Bool) where
  -- How many of the times are not past yet.
  abbrev pub recent : T → List T → ℕ
  recent time [] = 0
  recent time (a ∷ rest) = if is_past a time then recent time rest else 1 + recent time rest

  pub recent-append :
      (time : T) (xs ys : List T) → recent time (xs ++ ys) ≡ recent time xs + recent time ys
  recent-append time [] ys = omega arith
  recent-append time (x ∷ xs) ys = ground (arith, recent-append time xs ys)

  pub recent_past :
      (time : T) (xs : List T) → All (λ a. is_past a time ≡ true) xs → recent time xs ≡ 0
  recent_past time [] h = refl
  recent_past time (x ∷ xs) (p, h) = ground (arith, recent_past time xs)

  recent-All :
      (time : T) (xs : List T) → All (λ a. is_past a time ≡ false) xs → recent time xs ≡ length xs
  recent-All time [] h = refl
  recent-All time (x ∷ xs) (p, h) = ground (arith, recent-All time xs)

-- What is asked of the clock: times are ordered, and what is past stays so for later times and is so
-- for earlier requests.
pub record Clock {T : Type 0} (is_past : T → T → Bool) : Type 1 where
  pub Before : T → T → Type 0
  pub Before-refl : (a : T) → Before a a
  pub Before-trans : (a b c : T) → Before a b → Before b c → Before a c
  pub stays_past : (a s t : T) → Before s t → is_past a s ≡ true → is_past a t ≡ true
  pub earlier_past : (a b t : T) → Before a b → is_past b t ≡ true → is_past a t ≡ true

module _ {T : Type 0} (is_past : T → T → Bool) (clock : Clock is_past) where
  -- The times stand in order, up to now.
  abbrev pub InOrder : T → List T → Type 0
  InOrder now [] = Unit {0}
  InOrder now (a ∷ rest) = All (λ b. clock.Before a b) rest × clock.Before a now × InOrder now rest

  not_past :
      (a t : T) (xs : List T)
      → is_past a t ≡ false
      → All (λ b. clock.Before a b) xs
      → All (λ b. is_past b t ≡ false) xs
  not_past a t xs h =
      All-map (λ b. clock.Before a b) (λ b. is_past b t ≡ false) xs
        (λ b before. elim (Bool-cases (is_past b t)) [
          | inl past ↦ absurd (ground (arith, clock.earlier_past a b t before past))
          | inr late ↦ late
        ])

  -- What `clear_old` takes away is past, and what it leaves is not.
  pub clear_old-splits :
      (now time : T) (xs : List T)
      → InOrder now xs
      → (gone : List T) × (xs ≡ gone ++ clear_old is_past time xs)
        × All (λ a. is_past a time ≡ true) gone
        × InOrder now (clear_old is_past time xs)
        × (recent is_past time (clear_old is_past time xs) ≡ length (clear_old is_past time xs))
  unfolding clear_old
  clear_old-splits now time [] h = ([], refl, tt, tt, refl)
  clear_old-splits now time (a ∷ rest) (later, before, ordered) =
      elim (Bool-cases (is_past a time)) [
        | inl past ↦
            let (gone, e, all, kept, counted) = clear_old-splits now time rest ordered in
            rw past (a ∷ gone, ap (λ xs. a ∷ xs) e, (past, all), kept, counted)
        | inr late ↦ rw late (
          [],
          refl,
          tt,
          (later, before, ordered),
          ground (arith, late, recent-All is_past time rest (not_past a time rest late later)),
        )
      ]

  pub advance :
      (now time : T) (xs : List T) → clock.Before now time → InOrder now xs → InOrder time xs
  advance now time [] later h = tt
  advance now time (a ∷ rest) later (others, before, h) =
      (others, clock.Before-trans a now time before later, advance now time rest later h)

  pub InOrder-append : (time : T) (xs : List T) → InOrder time xs → InOrder time (xs ++ time ∷ [])
  InOrder-append time [] h = (tt, clock.Before-refl time, tt)
  InOrder-append time (a ∷ rest) (others, before, h) = (
    All-append (λ b. clock.Before a b) rest (time ∷ []) others (before, tt),
    before,
    InOrder-append time rest h,
  )
