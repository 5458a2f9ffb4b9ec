-- ===== src/Repository/Bijection.antt =====
-- The two maps of the repository mirror each other.
use godot_godaemon_multiplay.Prelude.{
  ℕ, suc, ◌<◌, ◌≡◌, ◌≢◌, Bool, true, false, none, some, arith, length, minus_one64,
}
use godot_godaemon_multiplay.HashMap.{lookup, has, erase, lookup-insert, lookup-erase}
use godot_godaemon_multiplay.Repository.{
  Repository, max_id, enter, add_object, remove_object, remove_object_id, get_object, get_id,
}
use godot_godaemon_multiplay.Repository.Search.{find_id-ends}

-- Every key of one map is the value of its entry in the other; the next id to try is in range.
pub record IsBijection (r : Repository) : Type 0 where
  pub forth :
      (object id : ℕ)
      → lookup object r.object_to_id ≡ some id
      → lookup id r.id_to_object ≡ some object
  pub back :
      (object id : ℕ)
      → lookup id r.id_to_object ≡ some object
      → lookup object r.object_to_id ≡ some id
  pub in_range : r.current_id < max_id

enter-IsBijection :
    (object id : ℕ) (r : Repository)
    → IsBijection r
    → has object r.object_to_id ≡ false
    → has id r.id_to_object ≡ false
    → IsBijection (enter object id r).1
unfolding enter has
enter-IsBijection object id r b new free = record {
  forth = λ o i h. grind (
    arith,
    lookup-insert object o id r.object_to_id,
    lookup-insert id i object r.id_to_object,
    b.forth o i,
    h,
  );
  back = λ o i h. grind (
    arith,
    lookup-insert object o id r.object_to_id,
    lookup-insert id i object r.id_to_object,
    b.back o i,
    h,
  );
  in_range = b.in_range;
}

-- In a repository whose two maps mirror each other, and with fewer than 2^32 entries in each, the
-- search of `add_object` for an id ends for an object that is not there, with as many steps as
-- there are entries and one more. The id is below 2^32 and was free, the maps mirror each other
-- again, the object and the id lead to each other where the object is valid, and every other
-- object keeps its id.
pub add_object-IsBijection :
    (object : ℕ) (is_valid : ℕ → Bool) (r : Repository)
    → IsBijection r
    → has object r.object_to_id ≡ false
    → length r.object_to_id < max_id
    → length r.id_to_object < max_id
    → is_valid object ≡ true
    → (id : ℕ) × (r' : Repository) × (add_object object none r ≡ some (id, r'))
      × IsBijection r'
      × (id < max_id)
      × (has id r.id_to_object ≡ false)
      × (get_id object r' ≡ id)
      × (get_object is_valid id r' ≡ (some object, r'))
      × ((other : ℕ) → other ≢ object → get_id other r' ≡ get_id other r)
unfolding add_object enter get_id get_object
add_object-IsBijection object is_valid r b new room room' valid =
    let (id, found, free, small) =
      find_id-ends (suc (length r.id_to_object)) r.current_id r.id_to_object b.in_range
        (omega arith) (omega arith) in
    let start : Repository = record r { current_id = id } in
    let b' : IsBijection start = record { forth = b.forth; back = b.back; in_range = small } in
    (
      id,
      (enter object id start).1,
      ground (arith, found),
      enter-IsBijection object id start b' new free,
      small,
      free,
      ground (arith, lookup-insert object object id r.object_to_id),
      ground (arith, valid, lookup-insert id id object r.id_to_object),
      λ other ne. ground (arith, ne, lookup-insert object other id r.object_to_id),
    )

-- In a repository whose two maps mirror each other, removing an object and removing its id do the
-- same: afterwards the maps mirror each other, neither the object nor the id leads anywhere, and
-- every other object keeps its id.
pub remove_object-IsBijection :
    (object id : ℕ) (is_valid : ℕ → Bool) (r : Repository)
    → IsBijection r
    → lookup object r.object_to_id ≡ some id
    → (r' : Repository) × (remove_object object r ≡ some r')
      × (remove_object_id id r ≡ some r')
      × IsBijection r'
      × (get_id object r' ≡ minus_one64)
      × (get_object is_valid id r' ≡ (none, r'))
      × ((other : ℕ) → other ≢ object → get_id other r' ≡ get_id other r)
unfolding remove_object remove_object_id get_id get_object
remove_object-IsBijection object id is_valid r b tracked =
    let listed = b.forth object id tracked in
    let r' : Repository = record r {
      id_to_object = erase id r.id_to_object;
      object_to_id = erase object r.object_to_id;
      object_awaits = erase object r.object_awaits;
    } in
    (
      r',
      ground (arith, tracked),
      ground (arith, listed),
      record {
        forth = λ o i h. grind (
          arith,
          lookup-erase object o r.object_to_id,
          lookup-erase id i r.id_to_object,
          b.forth o i,
          b.forth object id,
          h,
        );
        back = λ o i h. grind (
          arith,
          lookup-erase object o r.object_to_id,
          lookup-erase id i r.id_to_object,
          b.back o i,
          b.back object id,
          h,
        );
        in_range = b.in_range;
      },
      ground (arith, lookup-erase object object r.object_to_id),
      ground (arith, lookup-erase id id r.id_to_object),
      λ other ne. ground (arith, ne, lookup-erase object other r.object_to_id),
    )

-- `add_object` with the id of another object passes its assertions: both objects then have the id,
-- and once the first is removed the second still has it, but the id leads nowhere.
pub add_object_stomps :
    (old object id : ℕ) (is_valid : ℕ → Bool) (r : Repository)
    → IsBijection r
    → lookup old r.object_to_id ≡ some id
    → has object r.object_to_id ≡ false
    → length r.object_to_id < max_id
    → (r' : Repository) × (r'' : Repository) × (add_object object (some id) r ≡ some (id, r'))
      × (get_id old r' ≡ id)
      × (get_id object r' ≡ id)
      × (remove_object old r' ≡ some r'')
      × (get_id object r'' ≡ id)
      × (get_object is_valid id r'' ≡ (none, r''))
unfolding add_object enter remove_object get_id get_object has
add_object_stomps old object id is_valid r b tracked new room =
    let ne : object ≢ old = λ e. absurd (ground (arith, e)) in
    let r' = (enter object id r).1 in
    let held : lookup old r'.object_to_id ≡ some id =
      ground (arith, lookup-insert object old id r.object_to_id, ne) in
    (
      r',
      record r' {
        id_to_object = erase id r'.id_to_object;
        object_to_id = erase old r'.object_to_id;
        object_awaits = erase old r'.object_awaits;
      },
      ground arith,
      ground (arith, held),
      ground (arith, lookup-insert object object id r.object_to_id),
      ground (arith, held),
      ground (
        arith,
        ne,
        lookup-erase old object r'.object_to_id,
        lookup-insert object object id r.object_to_id,
      ),
      ground (arith, lookup-erase id id r'.id_to_object),
    )
