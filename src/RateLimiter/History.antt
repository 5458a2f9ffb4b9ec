-- ===== src/RateLimiter/History.antt =====
-- The rate limiter beside one that never forgets a request.
use godot_godaemon_multiplay.Prelude.{
  ℕ, ◌≡◌, refl, sym, ◌∙◌, subst, ap, inl, inr, Bool, true, false, List, [], ◌∷◌, ◌++◌, length,
  append_assoc, arith, ◌==◌, ==_iff, ltb, if◌then◌else◌, Bool-cases,
}
use godot_godaemon_multiplay.HashMap.{HashMap, lookup, insert, erase, lookup-insert, lookup-erase}
use godot_godaemon_multiplay.RateLimiter.{
  RateLimiter, new_rate_limiter, peer_disconnected, times_of, clear_old, check,
}
use godot_godaemon_multiplay.RateLimiter.Times.{
  All, All-append, All-map, recent, recent-append, recent_past, Clock, InOrder, clear_old-splits,
  advance, InOrder-append,
}

-- What happens to a limiter: a peer asks at a time, or has left.
pub data Event (T : Type 0) : Type 0 where
  asked : ℕ → T → Event T
  left : ℕ → Event T

module _ {T : Type 0} (is_past : T → T → Bool) where
  abbrev pub answers : List (Event T) → RateLimiter T → List Bool
  answers [] limiter = []
  answers (asked peer time ∷ rest) limiter =
      let (allowed, after) = check is_past peer time limiter in allowed ∷ answers rest after
  answers (left peer ∷ rest) limiter = answers rest (peer_disconnected peer limiter)

  -- The same from all requests that were allowed, kept for ever: a request is allowed if fewer than
  -- `count` of the peer's are not past.
  abbrev pub history_answers : ℕ → List (Event T) → HashMap (List T) → List Bool
  history_answers count [] history = []
  history_answers count (asked peer time ∷ rest) history =
      let allowed = ltb (recent is_past time (times_of peer history)) count in
      allowed
      ∷ history_answers count rest
          (if allowed then insert peer (times_of peer history ++ time ∷ []) history else history)
  history_answers count (left peer ∷ rest) history = history_answers count rest (erase peer history)

module _ {T : Type 0} (is_past : T → T → Bool) (clock : Clock is_past) where
  -- The array of a peer is what is left of its history: what was cleared is past.
  abbrev Matches : T → List T → List T → Type 0
  Matches now array history =
      (gone : List T) × (history ≡ gone ++ array)
      × All (λ a. is_past a now ≡ true) gone
      × InOrder is_past clock now array

  Matches-later :
      (now time : T) (array history : List T)
      → clock.Before now time
      → Matches now array history
      → Matches time array history
  Matches-later now time array history later (gone, e, past, ordered) = (
    gone,
    e,
    All-map (λ a. is_past a now ≡ true) (λ a. is_past a time ≡ true) gone
        (λ a. clock.stays_past a now time later) past,
    advance is_past clock now time array later ordered,
  )

  Matches-check :
      (time : T) (array history : List T)
      → Matches time array history
      → (recent is_past time history ≡ length (clear_old is_past time array))
        × Matches time (clear_old is_past time array) history
  Matches-check time array history (gone, e, past, ordered) =
      let (more, split, past', kept, counted) =
        clear_old-splits is_past clock time time array ordered in
      let rest = clear_old is_past time array in
      let e' : history ≡ (gone ++ more) ++ rest =
        e ∙ ap (λ xs. gone ++ xs) split ∙ sym (append_assoc gone more rest) in
      let all = All-append (λ a. is_past a time ≡ true) gone more past past' in
      (
        ap (recent is_past time) e'
            ∙ omega (
              arith,
              recent-append is_past time (gone ++ more) rest,
              recent_past is_past time (gone ++ more) all,
              counted,
            ),
        (gone ++ more, e', all, kept),
      )

  Matches-add :
      (time : T) (array history : List T)
      → Matches time array history
      → Matches time (array ++ time ∷ []) (history ++ time ∷ [])
  Matches-add time array history (gone, e, past, ordered) = (
    gone,
    ap (λ xs. xs ++ time ∷ []) e ∙ append_assoc gone array (time ∷ []),
    past,
    InOrder-append is_past clock time array ordered,
  )

  Matches-if :
      (now : T) (b : Bool) (xs ys xs' ys' : List T)
      → Matches now xs ys
      → Matches now xs' ys'
      → Matches now (if b then xs else xs') (if b then ys else ys')
  Matches-if now true xs ys xs' ys' m m' = m
  Matches-if now false xs ys xs' ys' m m' = m'

  abbrev Agrees : T → HashMap (List T) → HashMap (List T) → Type 0
  Agrees now ids history = (peer : ℕ) → Matches now (times_of peer ids) (times_of peer history)

  times_of-insert :
      (peer q : ℕ) (xs : List T) (ids : HashMap (List T))
      → times_of q (insert peer xs ids) ≡ (if peer == q then xs else times_of q ids)
  unfolding times_of
  times_of-insert peer q xs ids = ground (arith, lookup-insert peer q xs ids)

  times_of-erase :
      (peer q : ℕ) (ids : HashMap (List T))
      → times_of q (erase peer ids) ≡ (if peer == q then [] else times_of q ids)
  unfolding times_of
  times_of-erase peer q ids = ground (arith, lookup-erase peer q ids)

  -- Both sides store a list for a peer.
  Agrees-insert :
      (now : T) (peer : ℕ) (xs ys : List T) (ids history : HashMap (List T))
      → Agrees now ids history
      → Matches now xs ys
      → Agrees now (insert peer xs ids) (insert peer ys history)
  Agrees-insert now peer xs ys ids history h m q =
      rw (times_of-insert peer q xs ids, times_of-insert peer q ys history)
        (Matches-if now (peer == q) xs ys (times_of q ids) (times_of q history) m (h q))

  Agrees-insert_left :
      (now : T) (peer : ℕ) (xs : List T) (ids history : HashMap (List T))
      → Agrees now ids history
      → Matches now xs (times_of peer history)
      → Agrees now (insert peer xs ids) history
  Agrees-insert_left now peer xs ids history h m q = elim (Bool-cases (peer == q)) [
    | inl same ↦
        rw (times_of-insert peer q xs ids, same)
          (subst (λ p. Matches now xs (times_of p history)) ((==_iff peer q).0 same) m)
    | inr other ↦ rw (times_of-insert peer q xs ids, other) (h q)
  ]

  -- The times of the requests come in order.
  abbrev pub AreInOrder : T → List (Event T) → Type 0
  AreInOrder now [] = Unit {0}
  AreInOrder now (asked peer time ∷ rest) = clock.Before now time × AreInOrder time rest
  AreInOrder now (left peer ∷ rest) = AreInOrder now rest

  answers_agree :
      (events : List (Event T)) (now : T) (limiter : RateLimiter T) (history : HashMap (List T))
      → AreInOrder now events
      → Agrees now limiter.ids history
      → answers is_past events limiter ≡ history_answers is_past limiter.count events history
  unfolding check peer_disconnected
  answers_agree [] now limiter history ordered h = refl
  answers_agree (left peer ∷ rest) now limiter history ordered h =
      answers_agree rest now (peer_disconnected peer limiter) (erase peer history) ordered (λ q.
        rw (times_of-erase peer q limiter.ids, times_of-erase peer q history)
          (Matches-if now (peer == q) [] [] (times_of q limiter.ids) (times_of q history)
            ([], refl, tt, tt) (h q)))
  answers_agree (asked peer time ∷ rest) now limiter history (later, ordered) h =
      let array = times_of peer limiter.ids in
      let kept = clear_old is_past time array in
      let h' : Agrees time limiter.ids history =
        λ q. Matches-later now time (times_of q limiter.ids) (times_of q history) later (h q) in
      let (counted, m) = Matches-check time array (times_of peer history) (h' peer) in
      elim (Bool-cases (ltb (length kept) limiter.count)) [
        | inl room ↦
            let ids = insert peer (kept ++ time ∷ []) limiter.ids in
            rw (check, counted, room)
              (ap (λ xs. true ∷ xs)
                (answers_agree rest time (record limiter { ids = ids })
                  (insert peer (times_of peer history ++ time ∷ []) history) ordered
                  (Agrees-insert time peer (kept ++ time ∷ []) (times_of peer history ++ time ∷ [])
                    limiter.ids history h' (Matches-add time kept (times_of peer history) m))))
        | inr full ↦
            rw (check, counted, full)
              (ap (λ xs. false ∷ xs)
                (answers_agree rest time (record limiter { ids = insert peer kept limiter.ids })
                  history ordered (Agrees-insert_left time peer kept limiter.ids history h' m)))
      ]

  -- From a new limiter, and for any requests of any peers whose times come in order, with peers
  -- that leave in between, `check` answers as a limiter that keeps every allowed request would:
  -- it allows one exactly if fewer than `count` of the peer's allowed requests since it last
  -- left are not past. A request that is past at a time is so at later times, and so are the
  -- requests before it.
  pub answers-history_answers :
      (count : ℕ) (start : T) (events : List (Event T))
      → AreInOrder start events
      → answers is_past events (new_rate_limiter count) ≡ history_answers is_past count events []
  unfolding new_rate_limiter times_of lookup
  answers-history_answers count start events ordered =
      answers_agree events start (new_rate_limiter count) [] ordered (λ q. ([], refl, tt, tt))
