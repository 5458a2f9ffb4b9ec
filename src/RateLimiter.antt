-- ===== src/RateLimiter.antt =====
-- `RateLimiter` (demo/addons/godaemon_multiplayer/util/rate_limiter.gd). A time is a parameter, and so
-- is the test `(time_array[0] + duration) < time` in the engine's floating point: `is_past a t`.
pub mod Times
pub mod History
use godot_godaemon_multiplay.Prelude.{
  ℕ, Bool, true, false, Option, none, some, List, [], ◌∷◌, ◌++◌, length, ltb, if◌then◌else◌,
}
use godot_godaemon_multiplay.HashMap.{HashMap, lookup, insert, erase}

pub record RateLimiter (T : Type 0) : Type 0 where
  pub count : ℕ
  pub ids : HashMap (List T)

module _ {T : Type 0} where
  -- `_init`.
  unfoldable pub new_rate_limiter : ℕ → RateLimiter T
  new_rate_limiter count = record { count = count; ids = [] }

  unfoldable pub peer_disconnected : ℕ → RateLimiter T → RateLimiter T
  peer_disconnected peer limiter = record limiter { ids = erase peer limiter.ids }

  -- `ids.get_or_add(peer, [])`, whose entry `check` fills in any case.
  unfoldable pub times_of : ℕ → HashMap (List T) → List T
  times_of peer ids = elim (lookup peer ids) [ none ↦ [] | some times ↦ times ]

module _ {T : Type 0} (is_past : T → T → Bool) where
  -- The loop in `check`.
  unfoldable pub clear_old : T → List T → List T
  clear_old time [] = []
  clear_old time (first ∷ rest) =
      let others = clear_old time rest in if is_past first time then others else first ∷ rest

  unfoldable pub check : ℕ → T → RateLimiter T → Bool × RateLimiter T
  check peer time limiter =
      let time_array = clear_old time (times_of peer limiter.ids) in
      if ltb (length time_array) limiter.count
      then (true, record limiter { ids = insert peer (time_array ++ time ∷ []) limiter.ids })
      else (false, record limiter { ids = insert peer time_array limiter.ids })
