-- ===== src/Tests/Scripts.antt =====
-- The witnesses of the theorems on the GDScript: a small engine, whose values are numbers, byte
-- arrays and one array, and a repository with one object.
use godot_godaemon_multiplay.Prelude.{
  ℕ, pos, negsuc, ◌+◌, ◌≤◌, ◌<◌, ◌≡◌, ◌≢◌, refl, Bool, true, false, Option, none, some, List, [],
  ◌∷◌, map, length, arith, ltb, minus_one64,
}
use godot_godaemon_multiplay.HashMap
use godot_godaemon_multiplay.HashMap.{lookup}
use godot_godaemon_multiplay.Engine.{Engine}
use godot_godaemon_multiplay.Stream.{
  PackedByteStream, read_bytes, allocate, new_stream, setup_write, setup_read,
}
use godot_godaemon_multiplay.Stream.Fields.{
  Field, number, blob, u8, s16, u32, float, kept, shape_of, write_fields, read_fields, total_width,
}
use godot_godaemon_multiplay.Stream.RoundTrip.{read_fields-write_fields}
use godot_godaemon_multiplay.Stream.Bounds.{
  negative_sizes_unguarded, Call, writing_set_up, allocated, read_bytes_called, number_written,
  StaysInBounds, calls, calls-StaysInBounds,
}
use godot_godaemon_multiplay.Repository.{
  Repository, add_object, remove_object, remove_object_id, get_object, get_id,
}
use godot_godaemon_multiplay.Repository.Bijection.{
  IsBijection, add_object-IsBijection, remove_object-IsBijection, add_object_stomps,
}
use godot_godaemon_multiplay.RateLimiter.{new_rate_limiter}
use godot_godaemon_multiplay.RateLimiter.Times.{Clock}
use godot_godaemon_multiplay.RateLimiter.History.{
  Event, asked, left, answers, history_answers, answers-history_answers,
}
use godot_godaemon_multiplay.Bitpacker.{Bitpacker, writer, reader}
use godot_godaemon_multiplay.Bitpacker.RoundTrip.{write_all, read_all, read_all-write_all}

pub data Value : Type 0 where
  nothing : Value
  numeral : ℕ → Value
  bytes_value : List ℕ → Value
  array_of_seven : Value

abbrev pub value_bytes : Value → Option (List ℕ)
value_bytes (bytes_value bytes) = some bytes
value_bytes _ = none

abbrev pub value_array : Value → Option (List Value)
value_array array_of_seven = some (numeral 7 ∷ [])
value_array _ = none

-- An engine that knows one array: the one that holds the number 7.
abbrev pub engine : Engine Value
engine = record {
  fresh_byte = λ n. 0;
  to_single = λ n. n;
  of_single = λ n. n;
  to_half = λ n. n;
  of_half = λ n. n;
  var_to_bytes = λ v. 9 ∷ 9 ∷ [];
  var_to_bytes_with_objects = λ v. 9 ∷ 9 ∷ [];
  decode_var_size = λ bytes at. 2;
  decode_var = λ bytes at objects. array_of_seven;
  null = nothing;
  of_array = λ values. array_of_seven;
  of_bytes = bytes_value;
  to_array = value_array;
  to_bytes = value_bytes;
}

pub value_of_bytes :
    (arg : Value) (bytes : List ℕ) → value_bytes arg ≡ some bytes → bytes_value bytes ≡ arg
value_of_bytes (bytes_value bytes) bytes' h = ground (arith, h)
value_of_bytes nothing bytes' h = absurd (ground (arith, h))
value_of_bytes (numeral n) bytes' h = absurd (ground (arith, h))
value_of_bytes array_of_seven bytes' h = absurd (ground (arith, h))

abbrev test_fields : List Field
test_fields = number u8 200 ∷ blob (1 ∷ 2 ∷ []) ∷ number s16 65535 ∷ number float 3 ∷ []

read_fields-write_fields_example :
    let written = write_fields engine test_fields (setup_write engine 10 new_stream) in
    let back =
      read_fields engine (map shape_of test_fields) (setup_read written.data_bytes new_stream) in
    (written.valid ≡ true)
    × (length written.data_bytes ≡ 10)
    × (back.0 ≡ map (kept engine) test_fields)
    × (back.1.valid ≡ true)
    × (back.1.c ≡ pos (total_width test_fields))
read_fields-write_fields_example = read_fields-write_fields engine test_fields 10 (ground arith)

abbrev test_calls : List (Call Value)
test_calls =
    writing_set_up 3
    ∷ number_written s16 5
    ∷ number_written u32 6
    ∷ allocated (pos 4)
    ∷ read_bytes_called (pos 2)
    ∷ []

calls-StaysInBounds_example : StaysInBounds engine new_stream (calls engine test_calls new_stream)
calls-StaysInBounds_example =
    calls-StaysInBounds engine test_calls new_stream (tt, (tt, (tt, (tt, (tt, tt)))))
      (unfold new_stream in (0, refl, ground arith))

-- Ten bytes, with the cursor behind the fourth.
abbrev read_so_far : PackedByteStream
read_so_far = record {
  data_bytes = 1 ∷ 2 ∷ 3 ∷ 4 ∷ 5 ∷ 6 ∷ 7 ∷ 8 ∷ 9 ∷ 10 ∷ [];
  c = pos 4;
  valid = true;
}

negative_sizes_unguarded_example :
    let (bytes, t) = read_bytes (negsuc 6) read_so_far in
    let u = allocate engine (negsuc 6) read_so_far in
    (bytes ≡ [])
    × (t.valid ≡ true)
    × (t.c ≡ negsuc 2)
    × (u.valid ≡ true)
    × (u.c ≡ pos 4)
    × (length u.data_bytes < 4)
negative_sizes_unguarded_example =
    negative_sizes_unguarded engine 6 4 read_so_far refl refl (ground arith) (ground arith)
      (ground arith) (ground arith)

abbrev pub tracking : Repository
tracking = record {
  current_id = 0;
  object_to_id = (31, 0) ∷ [];
  id_to_object = (0, 31) ∷ [];
  object_awaits = [];
}

tracking-IsBijection : IsBijection tracking
unfolding lookup
tracking-IsBijection = record {
  forth = λ object id h. ground (arith, h);
  back = λ object id h. ground (arith, h);
  in_range = ground arith;
}

add_object-IsBijection_example :
    (id : ℕ) × (r : Repository) × (add_object 32 none tracking ≡ some (id, r))
    × IsBijection r
    × (id < 4294967296)
    × (HashMap.has id tracking.id_to_object ≡ false)
    × (get_id 32 r ≡ id)
    × (get_object (λ o. true) id r ≡ (some 32, r))
    × ((other : ℕ) → other ≢ 32 → get_id other r ≡ get_id other tracking)
add_object-IsBijection_example =
    add_object-IsBijection 32 (λ o. true) tracking tracking-IsBijection
      (unfold HashMap.has lookup in refl) (ground arith) (ground arith) refl

remove_object-IsBijection_example :
    (r : Repository) × (remove_object 31 tracking ≡ some r)
    × (remove_object_id 0 tracking ≡ some r)
    × IsBijection r
    × (get_id 31 r ≡ minus_one64)
    × (get_object (λ o. true) 0 r ≡ (none, r))
    × ((other : ℕ) → other ≢ 31 → get_id other r ≡ get_id other tracking)
remove_object-IsBijection_example =
    remove_object-IsBijection 31 0 (λ o. true) tracking tracking-IsBijection (unfold lookup in refl)

add_object_stomps_example :
    (r : Repository) × (s : Repository) × (add_object 32 (some 0) tracking ≡ some (0, r))
    × (get_id 31 r ≡ 0)
    × (get_id 32 r ≡ 0)
    × (remove_object 31 r ≡ some s)
    × (get_id 32 s ≡ 0)
    × (get_object (λ o. true) 0 s ≡ (none, s))
add_object_stomps_example =
    add_object_stomps 31 32 0 (λ o. true) tracking tracking-IsBijection (unfold lookup in refl)
      (unfold HashMap.has lookup in refl) (ground arith)

-- Times in milliseconds, and a second as the duration.
abbrev past : ℕ → ℕ → Bool
past a t = ltb (a + 1000) t

abbrev test_clock : Clock past
test_clock = record {
  Before = λ a b. a ≤ b;
  Before-refl = λ a. omega arith;
  Before-trans = λ a b c h k. omega arith;
  stays_past = λ a s t h k. ground arith;
  earlier_past = λ a b t h k. ground arith;
}

abbrev test_requests : List (Event ℕ)
test_requests = asked 5 100 ∷ asked 6 200 ∷ asked 5 300 ∷ asked 5 400 ∷ left 6 ∷ asked 5 1200 ∷ []

answers-history_answers_example :
    answers past test_requests (new_rate_limiter 2) ≡ history_answers past 2 test_requests []
answers-history_answers_example =
    answers-history_answers past test_clock 2 0 test_requests
      (ground arith, (ground arith, (ground arith, (ground arith, (ground arith, tt)))))

-- A power that is too large becomes the least number.
abbrev wrapped : ℕ → ℕ
wrapped bits = 9223372036854775808

read_all-write_all_example :
    (packer : Bitpacker) × (write_all wrapped ((1, 0) ∷ (2, 1) ∷ (4, 12) ∷ []) writer ≡ some packer)
    × (read_all wrapped (1 ∷ 2 ∷ 4 ∷ []) (reader packer.value) ≡ some (0 ∷ 1 ∷ 12 ∷ []))
read_all-write_all_example =
    read_all-write_all wrapped ((1, 0) ∷ (2, 1) ∷ (4, 12) ∷ [])
      (
        ground arith,
        ground arith,
        ground arith,
        (ground arith, ground arith, ground arith, (ground arith, ground arith, ground arith, tt)),
      )
      (ground arith)
