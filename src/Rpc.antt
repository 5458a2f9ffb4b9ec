-- ===== src/Rpc.antt =====
-- The bytes of a remote procedure call, and where a server takes one that has come in
-- (demo/addons/godaemon_multiplayer/api/rpc.gd). An `int` is a 64-bit pattern.
pub mod Layout
pub mod RoundTrip
pub mod Routes
pub mod Inbound
pub mod Outbound
pub mod Sending
use godot_godaemon_multiplay.Prelude.{
  ℕ, ◌+◌, ◌-◌, Bool, true, false, not, ◌&&◌, ◌||◌, Option, none, some, List, [], ◌∷◌, ◌++◌, length,
  drop, leb, ltb, ◌==◌, if◌then◌else◌, minus_one64, bit_and, bit_xor,
}
use godot_godaemon_multiplay.Engine.{Engine, slice_from}
use godot_godaemon_multiplay.Stream.{
  PackedByteStream, new_stream, setup_write, setup_read, write_u8, write_u32, write_unsigned,
  read_u8, read_u32, read_unsigned, read_variant,
}
use godot_godaemon_multiplay.Repository.{Repository, get_id, max_bytes}

abbrev pub max_rpc_method_bytes : ℕ
max_rpc_method_bytes = 1

abbrev pub max_rpc_methods : ℕ
max_rpc_methods = 256

-- What the calls read of the `GodaemonMultiplayerAPI`: `get_unique_id()` and the repository.
pub record Api : Type 0 where
  pub unique_id : ℕ
  pub repository : Repository

abbrev pub is_client : Api → Bool
is_client api = not (api.unique_id == 1)

abbrev pub is_server : Api → Bool
is_server api = api.unique_id == 1

-- The array that `decompress_rpc` gives.
pub record RpcCall (V : Type 0) : Type 0 where
  pub from_peer : ℕ
  pub to_peer : ℕ
  pub object_id : ℕ
  pub method_idx : ℕ
  pub args : List V

-- `n < 0` on an `int`.
abbrev pub is_negative64 : ℕ → Bool
is_negative64 n = leb 9223372036854775808 n

unfoldable pub header_flags : Bool → Bool → ℕ
header_flags packing_args dense_args =
    let flags = if packing_args then bit_xor 0 1 else 0 in
    if dense_args then bit_xor flags 2 else flags

unfoldable pub packed_size : Api → ℕ
packed_size api = 1 + ((if is_server api then 4 else 0) + (4 + (max_bytes + max_rpc_method_bytes)))

module _ {V : Type 0} (engine : Engine V) where
  -- The bytes of an argument that stands alone and is a byte array.
  unfoldable pub dense_bytes : List V → Option (List ℕ)
  dense_bytes [] = none
  dense_bytes (arg ∷ []) = engine.to_bytes arg
  dense_bytes (arg ∷ other ∷ rest) = none

  abbrev pub is_dense : List V → Bool
  is_dense args = elim (dense_bytes args) [ none ↦ false | some bytes ↦ true ]

  abbrev pub has_args : List V → Bool
  has_args args = not (length args == 0)

  -- What `compress_rpc` appends for the arguments.
  unfoldable pub args_bytes : List V → List ℕ
  args_bytes args =
      if has_args args
      then elim (dense_bytes args) [
        | none ↦ engine.var_to_bytes (engine.of_array args)
        | some bytes ↦ bytes
      ]
      else []

  -- `compress_rpc` up to the peers.
  unfoldable pub write_peers : Api → ℕ → ℕ → List V → PackedByteStream
  write_peers api from_peer to_peer args =
      let s = setup_write engine (packed_size api) new_stream in
      let t = write_u8 (header_flags (has_args args) (is_dense args)) s in
      let u = if is_server api then write_u32 from_peer t else t in write_u32 to_peer u

  -- No bytes where the call cannot be sent.
  unfoldable pub compress_rpc : Api → ℕ → ℕ → ℕ → ℕ → List V → List ℕ
  compress_rpc api from_peer to_peer object method_idx args =
      let id = get_id object api.repository in
      let s = write_peers api from_peer to_peer args in
      let t = write_unsigned id max_bytes s in
      let u = write_unsigned method_idx max_rpc_method_bytes t in
      if id == minus_one64
      then []
      else if not (is_negative64 method_idx) && leb max_rpc_methods method_idx
      then []
      else if u.valid
      then u.data_bytes ++ args_bytes args
      else []

  -- The arguments, where the header's flags say that they are there: `none` for a value that is no
  -- array, which cannot be assigned to `args`.
  unfoldable pub read_args : ℕ → PackedByteStream → Option (List V) × PackedByteStream
  read_args header s =
      let (value, t) = read_variant engine false s in
      if bit_and header 1 == 0
      then (some [], s)
      else if bit_and header 2 == 0
      then (engine.to_array value, t)
      else (some (engine.of_bytes (slice_from s.c s.data_bytes) ∷ []), s)

  unfoldable pub read_sender : Api → ℕ → PackedByteStream → ℕ × PackedByteStream
  read_sender api id s = if is_client api then read_u32 s else (id, s)

  -- `none` is the empty array, or that the function ends with an error.
  unfoldable pub decompress_rpc : Api → ℕ → List ℕ → Option (RpcCall V)
  decompress_rpc api id array =
      let (header, s) = read_u8 (setup_read array new_stream) in
      let (from_peer, t) = read_sender api id s in
      let (to_peer, u) = read_u32 t in
      let (object_id, v) = read_unsigned max_bytes u in
      let (method_idx, w) = read_unsigned max_rpc_method_bytes v in
      let (read, x) = read_args header w in
      elim read [
        | none ↦ none
        | some args ↦
            if x.valid
            then some (record {
              from_peer = from_peer;
              to_peer = to_peer;
              object_id = object_id;
              method_idx = method_idx;
              args = args;
            })
            else none
      ]

-- What `inbound_rpc` asks of the method's configuration, the object's owner, the filters and the
-- session, once the call has passed its checks.
pub record Receivers : Type 0 where
  pub server_receives : Bool  -- config.get_recv_filter_flag(Filter.Server)
  pub clients_receive : Bool  -- config.get_recv_filter_flag(Filter.Client)
  pub on_node : Bool  -- object is Node
  pub can_they_recv : ℕ → Bool  -- config.can_they_recv(object, peer)
  pub passes_filters : ℕ → Bool  -- every inbound filter lets a call from the sender to the peer through
  pub peers : List ℕ  -- api.get_peers()

-- What is done with the call: it is called here, or sent on to a peer.
pub data Delivery : Type 0 where
  called_here : Delivery
  sent_to : ℕ → Delivery

abbrev pub when : Bool → Delivery → List Delivery
when b delivery = if b then delivery ∷ [] else []

-- `-n` on an `int`.
abbrev pub negate64 : ℕ → ℕ
negate64 n = if n == 0 then 0 else 18446744073709551616 - n

abbrev pub is_positive64 : ℕ → Bool
is_positive64 n = not (n == 0) && not (is_negative64 n)

-- The loop over the peers of a broadcast.
unfoldable pub broadcast : Receivers → ℕ → ℕ → List ℕ → List Delivery
broadcast r from_peer skip_peer [] = []
broadcast r from_peer skip_peer (p ∷ rest) =
    let others = broadcast r from_peer skip_peer rest in
    if (p == skip_peer) || ((p == 1) || (p == from_peer))
    then others
    else if is_positive64 skip_peer && not (r.passes_filters p)
    then others
    else when (if r.on_node then r.can_they_recv p else true) (sent_to p) ++ others

-- The last part of `inbound_rpc`, for a call from the peer `id`.
unfoldable pub route : Receivers → ℕ → ℕ → ℕ → List Delivery
route r id from_peer to_peer =
    if to_peer == 1
    then when r.server_receives called_here
    else if id == 1
    then called_here ∷ []
    else if is_positive64 to_peer
    then when (if r.on_node then r.can_they_recv to_peer else r.clients_receive) (sent_to to_peer)
    else when (not (negate64 to_peer == 1) && r.server_receives) called_here
      ++ broadcast r from_peer (negate64 to_peer) r.peers
