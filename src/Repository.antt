-- ===== src/Repository.antt =====
-- The repository of object ids (demo/addons/godaemon_multiplayer/api/repository.gd). An object is known
-- by a number, and a result `none` is an assertion that fails.
pub mod Search
pub mod Bijection
use godot_godaemon_multiplay.Prelude.{
  ℕ, zero, suc, ◌+◌, Bool, true, false, not, ◌&&◌, Option, none, some, List, [], length, leb, ltb,
  ◌==◌, if◌then◌else◌, minus_one64,
}
use godot_godaemon_multiplay.HashMap.{HashMap, lookup, has, insert, erase}

abbrev pub max_bytes : ℕ
max_bytes = 4

abbrev pub max_id : ℕ
max_id = 4294967296

pub record Repository : Type 0 where
  pub current_id : ℕ
  pub object_to_id : HashMap ℕ
  pub id_to_object : HashMap ℕ
  pub object_awaits : HashMap ℕ

unfoldable pub new_repository : Repository
new_repository = record { current_id = 0; object_to_id = []; id_to_object = []; object_awaits = [] }

-- The step of the loop in `add_object`.
unfoldable pub next_id : ℕ → ℕ
next_id current = if leb max_id (current + 1) then 0 else current + 1

-- The loop in `add_object`, on fuel: `none` where the fuel is used up.
unfoldable pub find_id : ℕ → ℕ → HashMap ℕ → Option ℕ
find_id zero current ids = none
find_id (suc fuel) current ids =
    let rest = find_id fuel (next_id current) ids in if has current ids then rest else some current

-- The last lines of `add_object`.
unfoldable pub enter : ℕ → ℕ → Repository → ℕ × Repository
enter object id r = (
  id,
  record r {
    object_to_id = insert object id r.object_to_id;
    id_to_object = insert id object r.id_to_object;
    object_awaits = erase object r.object_awaits;
  },
)

-- The id `none` is the default argument -1. With an id the code asserts that the id is no key of
-- `object_to_id`, whose keys are objects: that assertion always holds.
unfoldable pub add_object : ℕ → Option ℕ → Repository → Option (ℕ × Repository)
add_object object object_id r =
    if not (has object r.object_to_id) && ltb (length r.object_to_id) max_id
    then elim object_id [
      | none ↦ elim (find_id (suc (length r.id_to_object)) r.current_id r.id_to_object) [
        | none ↦ none
        | some id ↦ some (enter object id (record r { current_id = id }))
      ]
      | some id ↦ some (enter object id r)
    ]
    else none

unfoldable pub remove_object : ℕ → Repository → Option Repository
remove_object object r = elim (lookup object r.object_to_id) [
  | none ↦ none
  | some id ↦ some (record r {
    id_to_object = erase id r.id_to_object;
    object_to_id = erase object r.object_to_id;
    object_awaits = erase object r.object_awaits;
  })
]

unfoldable pub remove_object_id : ℕ → Repository → Option Repository
remove_object_id id r = elim (lookup id r.id_to_object) [
  | none ↦ none
  | some object ↦ some (record r {
    object_to_id = erase object r.object_to_id;
    object_awaits = erase object r.object_awaits;
    id_to_object = erase id r.id_to_object;
  })
]

-- `get_object`, with the engine's `is_instance_valid`: `none` is `null`.
unfoldable pub get_object : (ℕ → Bool) → ℕ → Repository → Option ℕ × Repository
get_object is_instance_valid id r = elim (lookup id r.id_to_object) [
  | none ↦ (none, r)
  | some object ↦
      if is_instance_valid object
      then (some object, r)
      else (none, record r { id_to_object = erase id r.id_to_object })
]

-- -1 where the object is not there.
unfoldable pub get_id : ℕ → Repository → ℕ
get_id object r = elim (lookup object r.object_to_id) [ none ↦ minus_one64 | some id ↦ id ]

unfoldable pub is_replicated : ℕ → Repository → Bool
is_replicated object r = not (get_id object r == minus_one64)

unfoldable pub add_object_id_await : ℕ → Repository → Repository
add_object_id_await object r = record r { object_awaits = insert object 0 r.object_awaits }

unfoldable pub cleanup : Repository → Repository
cleanup r = record r { object_to_id = []; id_to_object = [] }
