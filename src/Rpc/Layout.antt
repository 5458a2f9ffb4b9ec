-- ===== src/Rpc/Layout.antt =====
-- Where the parts of a call stand in its bytes.
use godot_godaemon_multiplay.Prelude.{
  ℕ, ◌%◌, ◌<◌, ◌≡◌, ◌≢◌, refl, ◌∙◌, inl, inr, true, false, Option, none, some, List, [], ◌∷◌, ◌++◌,
  drop, map, arith, if◌then◌else◌, Bool-cases, minus_one64,
}
use godot_godaemon_multiplay.Engine.{Engine, encode}
use godot_godaemon_multiplay.Stream.{
  PackedByteStream, new_stream, setup_read, write_unsigned, read_unsigned,
}
use godot_godaemon_multiplay.Stream.Cursor.{StandsAt}
use godot_godaemon_multiplay.Stream.Fields.{
  u8, u32, Field, number, Shape, number_shape, shape_of, fields_bytes, read_fields,
}
use godot_godaemon_multiplay.Stream.RoundTrip.{read_fields-StandsAt, fields_fill}
use godot_godaemon_multiplay.Repository.{get_id}
use godot_godaemon_multiplay.Rpc.{
  Api, is_client, is_server, RpcCall, header_flags, packed_size, is_dense, has_args, args_bytes,
  write_peers, compress_rpc, read_args, read_sender, decompress_rpc,
}

module _ {V : Type 0} (engine : Engine V) where
  abbrev pub header : List V → ℕ
  header args = header_flags (has_args engine args) (is_dense engine args)

  -- The fields of a call before its arguments, as a server and a client write them.
  abbrev pub server_fields : ℕ → ℕ → ℕ → ℕ → List V → List Field
  server_fields from_peer to_peer id method_idx args =
      number u8 (header args)
      ∷ number u32 from_peer
      ∷ number u32 to_peer
      ∷ number u32 id
      ∷ number u8 method_idx
      ∷ []

  abbrev pub client_fields : ℕ → ℕ → ℕ → List V → List Field
  client_fields to_peer id method_idx args =
      number u8 (header args) ∷ number u32 to_peer ∷ number u32 id ∷ number u8 method_idx ∷ []

  abbrev pub call_fields : Api → ℕ → ℕ → ℕ → ℕ → List V → List Field
  call_fields api from_peer to_peer id method_idx args =
      if is_server api
      then server_fields from_peer to_peer id method_idx args
      else client_fields to_peer id method_idx args

  pub compress_rpc_eq :
      (api : Api) (from_peer to_peer object method_idx : ℕ) (args : List V)
      → get_id object api.repository ≢ minus_one64
      → method_idx < 256
      → compress_rpc engine api from_peer to_peer object method_idx args
        ≡ fields_bytes engine
            (call_fields api from_peer to_peer (get_id object api.repository) method_idx args)
          ++ args_bytes engine args
  unfolding compress_rpc write_peers packed_size write_unsigned
  compress_rpc_eq api from_peer to_peer object method_idx args tracked few =
      let id = get_id object api.repository in
      elim (Bool-cases (is_server api)) [
        | inl server ↦
            let (filled, good) =
              fields_fill engine (server_fields from_peer to_peer id method_idx args) in
            rw server (ground (arith, filled, good, tracked, few))
        | inr client ↦
            let (filled, good) = fields_fill engine (client_fields to_peer id method_idx args) in
            rw client (ground (arith, filled, good, tracked, few))
      ]

  -- A call that can be sent has a header at least.
  pub compress_rpc_some :
      (api : Api) (from_peer to_peer object method_idx : ℕ) (args : List V)
      → get_id object api.repository ≢ minus_one64
      → method_idx < 256
      → (b : ℕ) × (rest : List ℕ) × (compress_rpc engine api from_peer to_peer object method_idx
            args
          ≡ b ∷ rest)
  unfolding encode
  compress_rpc_some api from_peer to_peer object method_idx args tracked few =
      let id = get_id object api.repository in
      let e = compress_rpc_eq api from_peer to_peer object method_idx args tracked few in
      let tail : List Field → List ℕ =
        λ fields. drop 1 (fields_bytes engine fields ++ args_bytes engine args) in
      elim (Bool-cases (is_server api)) [
        | inl server ↦ (
          header args % 256,
          tail (server_fields from_peer to_peer id method_idx args),
          e ∙ rw server refl,
        )
        | inr client ↦
            (header args % 256, tail (client_fields to_peer id method_idx args), e ∙ rw client refl)
      ]

  -- What `decompress_rpc` makes of its fields and what `read_args` gives.
  abbrev pub with_args : ℕ → ℕ → ℕ → ℕ → Option (List V) × PackedByteStream → Option (RpcCall V)
  with_args from_peer to_peer id method_idx (none, x) = none
  with_args from_peer to_peer id method_idx (some args, x) =
      if x.valid
      then some (record {
        from_peer = from_peer;
        to_peer = to_peer;
        object_id = id;
        method_idx = method_idx;
        args = args;
      })
      else none

  abbrev pub sender_read : Api → ℕ → ℕ → ℕ
  sender_read api from_peer sender = if is_server api then from_peer % 4294967296 else sender

  -- The shapes of a call's fields, as a client and a server read them.
  abbrev shapes_for_client : List Shape
  shapes_for_client =
      number_shape u8
      ∷ number_shape u32
      ∷ number_shape u32
      ∷ number_shape u32
      ∷ number_shape u8
      ∷ []

  abbrev shapes_for_server : List Shape
  shapes_for_server = number_shape u8 ∷ number_shape u32 ∷ number_shape u32 ∷ number_shape u8 ∷ []

  client_decompresses :
      (api : Api) (sender h from_peer to_peer id method_idx : ℕ) (array : List ℕ)
      → is_client api ≡ true
      → (read_fields engine shapes_for_client (setup_read array new_stream)).0
        ≡ number u8 h
          ∷ number u32 from_peer
          ∷ number u32 to_peer
          ∷ number u32 id
          ∷ number u8 method_idx
          ∷ []
      → decompress_rpc engine api sender array
        ≡ with_args from_peer to_peer id method_idx (
            read_args engine h
              (read_fields engine shapes_for_client (setup_read array new_stream)).1)
  unfolding decompress_rpc read_sender read_unsigned
  client_decompresses api sender h from_peer to_peer id method_idx array client e =
      ground (arith, client, e)

  server_decompresses :
      (api : Api) (sender h to_peer id method_idx : ℕ) (array : List ℕ)
      → is_client api ≡ false
      → (read_fields engine shapes_for_server (setup_read array new_stream)).0
        ≡ number u8 h ∷ number u32 to_peer ∷ number u32 id ∷ number u8 method_idx ∷ []
      → decompress_rpc engine api sender array
        ≡ with_args sender to_peer id method_idx (
            read_args engine h
              (read_fields engine shapes_for_server (setup_read array new_stream)).1)
  unfolding decompress_rpc read_sender read_unsigned
  server_decompresses api sender h to_peer id method_idx array server e = ground (arith, server, e)

  pub decompress_rpc_eq :
      (api api' : Api) (from_peer to_peer id method_idx sender : ℕ) (args : List V) (tail : List ℕ)
      → is_client api' ≡ is_server api
      → (w : PackedByteStream) × StandsAt
          (fields_bytes engine (call_fields api from_peer to_peer id method_idx args))
          tail
          w
        × (decompress_rpc engine api' sender
              (fields_bytes engine (call_fields api from_peer to_peer id method_idx args) ++ tail)
            ≡ with_args
                (sender_read api from_peer sender)
                (to_peer % 4294967296)
                (id % 4294967296)
                (method_idx % 256)
                (read_args engine (header args % 256) w))
  unfolding setup_read new_stream
  decompress_rpc_eq api api' from_peer to_peer id method_idx sender args tail ends =
      elim (Bool-cases (is_server api)) [
        | inl server ↦ rw server (
            let fields = server_fields from_peer to_peer id method_idx args in
            let start = setup_read (fields_bytes engine fields ++ tail) new_stream in
            let (e, after) =
              read_fields-StandsAt engine fields [] tail start
                (record { array_is = refl; cursor_is = refl; is_valid = refl }) in
            (
              (read_fields engine (map shape_of fields) start).1,
              after,
              client_decompresses api' sender _ _ _ _ _ (fields_bytes engine fields ++ tail)
                  (ends ∙ server) e,
            ))
        | inr client ↦ rw client (
            let fields = client_fields to_peer id method_idx args in
            let start = setup_read (fields_bytes engine fields ++ tail) new_stream in
            let (e, after) =
              read_fields-StandsAt engine fields [] tail start
                (record { array_is = refl; cursor_is = refl; is_valid = refl }) in
            (
              (read_fields engine (map shape_of fields) start).1,
              after,
              server_decompresses api' sender _ _ _ _ (fields_bytes engine fields ++ tail)
                  (ends ∙ client) e,
            ))
      ]
