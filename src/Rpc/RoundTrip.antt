-- ===== src/Rpc/RoundTrip.antt =====
-- A call that is read back from its bytes.
use godot_godaemon_multiplay.Prelude.{
  ℕ, pos, ◌%◌, ◌<◌, ◌≡◌, ◌≢◌, refl, sym, ◌∙◌, subst, ap, inl, inr, true, false, Option, none, some,
  List, [], ◌∷◌, ◌++◌, length, drop, drop-append, length-append, arith, if◌then◌else◌, Bool-cases,
  Option-cases, minus_one64,
}
use godot_godaemon_multiplay.Engine.{Engine, slice_from}
use godot_godaemon_multiplay.Stream.{PackedByteStream, read_variant}
use godot_godaemon_multiplay.Stream.Cursor.{StandsAt}
use godot_godaemon_multiplay.Repository.{get_id}
use godot_godaemon_multiplay.Rpc.{
  Api, is_client, is_server, header_flags, dense_bytes, has_args, args_bytes, compress_rpc,
  read_args, decompress_rpc,
}
use godot_godaemon_multiplay.Rpc.Layout.{
  header, compress_rpc_eq, with_args, sender_read, decompress_rpc_eq,
}

module _ {V : Type 0} (engine : Engine V) where
  -- What the engine's functions make of the arguments: a byte array's bytes give it back, and an
  -- array that ends the bytes is decoded with its size.
  pub record DecodesArgs (args : List V) : Type 0 where
    pub byte_array :
        (arg : V) (bytes : List ℕ) → engine.to_bytes arg ≡ some bytes → engine.of_bytes bytes ≡ arg
    pub array_size :
        (before : List ℕ)
        → let coded = engine.var_to_bytes (engine.of_array args) in
          engine.decode_var_size (before ++ coded) (pos (length before)) ≡ length coded
    pub array :
        (before : List ℕ)
        → let coded = engine.var_to_bytes (engine.of_array args) in
          engine.to_array (engine.decode_var (before ++ coded) (pos (length before)) false)
          ≡ some args

  -- The three headers, and what stands behind each.
  dense_case :
      (args : List V) (bytes : List ℕ)
      → dense_bytes engine args ≡ some bytes
      → (header engine args ≡ 3)
        × (args_bytes engine args ≡ bytes)
        × ((arg : V) × (args ≡ arg ∷ []) × (engine.to_bytes arg ≡ some bytes))
  unfolding dense_bytes args_bytes header_flags
  dense_case [] bytes h = absurd (ground arith)
  dense_case (arg ∷ []) bytes h = (ground (arith, h), ground (arith, h), (arg, refl, h))
  dense_case (arg ∷ other ∷ rest) bytes h = absurd (ground arith)

  loose_case :
      (args : List V)
      → dense_bytes engine args ≡ none
      → has_args engine args ≡ true
      → (header engine args ≡ 1)
        × (args_bytes engine args ≡ engine.var_to_bytes (engine.of_array args))
  unfolding args_bytes header_flags
  loose_case args loose more = (ground (arith, loose, more), ground (arith, loose, more))

  no_args_case :
      (args : List V) → has_args engine args ≡ false → (header engine args ≡ 0) × (args ≡ [])
  unfolding dense_bytes header_flags
  no_args_case [] h = (refl, refl)
  no_args_case (arg ∷ rest) h = absurd (ground arith)

  read_dense :
      (before bytes : List ℕ) (w : PackedByteStream)
      → StandsAt before bytes w
      → read_args engine 3 w ≡ (some (engine.of_bytes bytes ∷ []), w)
  unfolding read_args slice_from
  read_dense before bytes w at =
      let rest : slice_from w.c w.data_bytes ≡ bytes =
        subst (λ i. slice_from i w.data_bytes ≡ bytes) (sym at.cursor_is)
          (subst (λ xs. drop (length before) xs ≡ bytes) (sym at.array_is)
            (drop-append before bytes)) in
      ap (λ bytes. (some (engine.of_bytes bytes ∷ []), w)) rest

  read_loose :
      (before coded : List ℕ) (args : List V) (w : PackedByteStream)
      → StandsAt before coded w
      → engine.decode_var_size (before ++ coded) (pos (length before)) ≡ length coded
      → engine.to_array (engine.decode_var (before ++ coded) (pos (length before)) false)
        ≡ some args
      → ((read_args engine 1 w).0 ≡ some args) × ((read_args engine 1 w).1.valid ≡ true)
  unfolding read_args read_variant
  read_loose before coded args w at size decoded =
      ground
        (arith, at.array_is, at.cursor_is, at.is_valid, size, decoded, length-append before coded)

  no_args_read :
      (args : List V) (w : PackedByteStream)
      → args ≡ []
      → w.valid ≡ true
      → ((read_args engine 0 w).0 ≡ some args) × ((read_args engine 0 w).1.valid ≡ true)
  unfolding read_args
  no_args_read args w empty good = (ap some (sym empty), good)

  -- The arguments, read behind the fields.
  read_args-args_bytes :
      (args : List V) (before : List ℕ) (w : PackedByteStream)
      → DecodesArgs args
      → StandsAt before (args_bytes engine args) w
      → ((read_args engine (header engine args % 256) w).0 ≡ some args)
        × ((read_args engine (header engine args % 256) w).1.valid ≡ true)
  read_args-args_bytes args before w d at = elim (Option-cases (dense_bytes engine args)) [
    | inr (bytes, dense) ↦
        let (h, tail, (arg, alone, is_bytes)) = dense_case args bytes dense in
        let e = read_dense before bytes w (subst (λ xs. StandsAt before xs w) tail at) in
        rw h (ground (arith, e, at.is_valid, alone, d.byte_array arg bytes is_bytes))
    | inl loose ↦ elim (Bool-cases (has_args engine args)) [
      | inl more ↦
          let (h, tail) = loose_case args loose more in
          rw h (
            read_loose before (engine.var_to_bytes (engine.of_array args)) args w
              (subst (λ xs. StandsAt before xs w) tail at) (d.array_size before) (d.array before))
      | inr no_args ↦
          let (h, empty) = no_args_case args no_args in rw h (no_args_read args w empty at.is_valid)
    ]
  ]

  with_args_eq :
      (from_peer to_peer id method_idx : ℕ) (args : List V) (x : Option (List V) × PackedByteStream)
      → method_idx < 256
      → x.0 ≡ some args
      → x.1.valid ≡ true
      → with_args engine from_peer to_peer id (method_idx % 256) x
        ≡ some (record {
          from_peer = from_peer;
          to_peer = to_peer;
          object_id = id;
          method_idx = method_idx;
          args = args;
        })
  with_args_eq from_peer to_peer id method_idx args (none, x) few read good = absurd (ground arith)
  with_args_eq from_peer to_peer id method_idx args (some found, x) few read good =
      let e : method_idx % 256 ≡ method_idx = omega arith in rw (e, good) (ground (arith, read))

  pub decompressed :
      (api api' : Api) (from_peer to_peer object method_idx sender : ℕ) (args : List V)
      → is_client api' ≡ is_server api
      → DecodesArgs args
      → get_id object api.repository ≢ minus_one64
      → method_idx < 256
      → decompress_rpc engine api' sender
          (compress_rpc engine api from_peer to_peer object method_idx args)
        ≡ some (record {
          from_peer = sender_read engine api from_peer sender;
          to_peer = to_peer % 4294967296;
          object_id = get_id object api.repository % 4294967296;
          method_idx = method_idx;
          args = args;
        })
  decompressed api api' from_peer to_peer object method_idx sender args ends d tracked few =
      let id = get_id object api.repository in
      let (w, at, e) =
        decompress_rpc_eq engine api api' from_peer to_peer id method_idx sender args
          (args_bytes engine args) ends in
      let (read, good) = read_args-args_bytes args _ w d at in
      ap (decompress_rpc engine api' sender)
        (compress_rpc_eq engine api from_peer to_peer object method_idx args tracked few)
      ∙ e
      ∙ with_args_eq (sender_read engine api from_peer sender) (to_peer % 4294967296)
          (id % 4294967296) method_idx args _ few read good

  -- `decompress_rpc` at the other end gives back what `compress_rpc` was told, for a server's
  -- call to a client and a client's to the server: the peer it is for, the object's id, the
  -- method's number and the arguments, be they none, a lone byte array or others; the sender is
  -- the one that a server wrote, and on a server the peer that the bytes came from. The object's
  -- id and both peers fit 32 bits, the method's number is below 256, and the engine's decoding
  -- gives these arguments back.
  pub decompress_rpc-compress_rpc :
      (api api' : Api) (from_peer to_peer object method_idx sender : ℕ) (args : List V)
      → is_client api' ≡ is_server api
      → DecodesArgs args
      → get_id object api.repository < 4294967296
      → method_idx < 256
      → from_peer < 4294967296
      → to_peer < 4294967296
      → decompress_rpc engine api' sender
          (compress_rpc engine api from_peer to_peer object method_idx args)
        ≡ some (record {
          from_peer = if is_server api then from_peer else sender;
          to_peer = to_peer;
          object_id = get_id object api.repository;
          method_idx = method_idx;
          args = args;
        })
  decompress_rpc-compress_rpc api api' from_peer to_peer object method_idx sender args ends d
        tracked few small small' =
      let e =
        decompressed api api' from_peer to_peer object method_idx sender args ends d
          (λ h. absurd (omega (arith, h))) few in
      let from_kept : from_peer % 4294967296 ≡ from_peer = omega arith in
      let to_kept : to_peer % 4294967296 ≡ to_peer = omega arith in
      let id_kept : get_id object api.repository % 4294967296 ≡ get_id object api.repository =
        omega arith in
      rw (e, from_kept, to_kept, id_kept) refl
