-- ===== src/Rpc/Outbound.antt =====
-- `outbound_rpc` (demo/addons/godaemon_multiplayer/api/rpc.gd): the checks of a call, the peers that it
-- goes to, and the commands that are sent. The commands are listed in the order of their sending.
use godot_godaemon_multiplay.Prelude.{
  ℕ, Bool, true, false, not, ◌&&◌, ◌||◌, List, [], ◌∷◌, leb, ◌==◌, if◌then◌else◌, minus_one64,
}
use godot_godaemon_multiplay.Engine.{Engine}
use godot_godaemon_multiplay.Repository.{get_id}
use godot_godaemon_multiplay.Rpc.{
  Api, is_client, is_server, max_rpc_methods, is_negative64, is_positive64, negate64, compress_rpc,
}

-- The results of `outbound_rpc`.
pub data RpcError : Type 0 where
  ok err_cant_resolve err_busy err_bug err_unconfigured err_unavailable : RpcError

-- What the engine, the method's configuration, the modifiers and the filters answer for a call.
pub record Outgoing : Type 0 where
  pub is_instance_valid : Bool
  pub is_valid_after_await : Bool
  pub is_queued_for_deletion : Bool
  pub has_script : Bool
  pub has_config : Bool
  pub on_node : Bool  -- object is Node
  pub can_we_send : Bool
  pub root_is_server : Bool  -- api.mp.is_server()
  pub method_idx : ℕ
  pub has_method : Bool
  pub peers : List ℕ  -- api.get_peers()
  pub can_they_recv : ℕ → Bool
  pub clients_receive : Bool  -- config.get_recv_filter_flag(Filter.Client)
  pub modify_targets : List ℕ → List ℕ  -- target_peer_modifiers, one after the other
  pub passes_filters : ℕ → Bool  -- every outbound filter lets the call to the peer through
  pub call_local : Bool

-- A command that is sent: the peer that `send_command` is given, and the bytes.
pub record Command : Type 0 where
  pub target_peer : ℕ
  pub bytes : List ℕ

pub record Outcome : Type 0 where
  pub error : RpcError
  pub commands : List Command
  pub called_local : Bool

-- `Array.erase`: the first element that is the peer.
unfoldable pub erase_first : ℕ → List ℕ → List ℕ
erase_first peer [] = []
erase_first peer (p ∷ rest) =
    let others = erase_first peer rest in if p == peer then rest else p ∷ others

-- The loop that erases each peer that may not receive the call.
unfoldable pub keep_receivers : (ℕ → Bool) → List ℕ → List ℕ → List ℕ
keep_receivers can_they_recv [] targets = targets
keep_receivers can_they_recv (p ∷ rest) targets =
    keep_receivers can_they_recv rest (if can_they_recv p then targets else erase_first p targets)

-- Everybody, everybody but a peer, or the peer.
unfoldable pub named_targets : List ℕ → ℕ → List ℕ
named_targets peers peer =
    if is_positive64 peer
    then peer ∷ []
    else if is_negative64 peer
    then erase_first (negate64 peer) peers
    else peers

-- The targets before the modifiers.
unfoldable pub target_peers : Api → Outgoing → ℕ → List ℕ
target_peers api o peer =
    let targets = named_targets o.peers peer in
    if not (is_server api)
    then peer ∷ []
    else if o.on_node
    then keep_receivers o.can_they_recv targets targets
    else if o.clients_receive
    then targets
    else []

-- The checks, in their order.
unfoldable pub outbound_error : Api → Outgoing → ℕ → RpcError
outbound_error api o object =
    if not o.is_instance_valid
    then err_cant_resolve
    else if not o.is_valid_after_await
    then err_cant_resolve
    else if get_id object api.repository == minus_one64
    then err_cant_resolve
    else if o.is_queued_for_deletion
    then err_busy
    else if not o.has_script
    then err_bug
    else if not o.has_config
    then err_unconfigured
    else if o.on_node && (not o.can_we_send && not o.root_is_server)
    then err_unconfigured
    else if (not (is_negative64 o.method_idx) && leb max_rpc_methods o.method_idx)
        || (o.method_idx == minus_one64)
    then err_unconfigured
    else if not o.has_method
    then err_unavailable
    else ok

unfoldable pub is_ok : RpcError → Bool
is_ok ok = true
is_ok _ = false

unfoldable pub is_empty : List ℕ → Bool
is_empty [] = true
is_empty (b ∷ rest) = false

-- `srs_override` is 0 but while a server sends a client's call on.
abbrev pub from_peer_of : Api → ℕ → ℕ
from_peer_of api srs_override = if srs_override == 0 then api.unique_id else srs_override

module _ {V : Type 0} (engine : Engine V) where
  -- The loop over the targets.
  unfoldable pub send_all : Api → Outgoing → ℕ → ℕ → List V → List ℕ → List Command
  send_all api o from_peer object args [] = []
  send_all api o from_peer object args (to_peer ∷ rest) =
      let others = send_all api o from_peer object args rest in
      let bytes = compress_rpc engine api from_peer to_peer object o.method_idx args in
      if to_peer == from_peer
      then others
      else if not (o.passes_filters to_peer)
      then others
      else if is_empty bytes
      then others
      else record { target_peer = if is_client api then 1 else to_peer; bytes = bytes } ∷ others

  unfoldable pub outbound_rpc : Api → Outgoing → ℕ → ℕ → ℕ → List V → Outcome
  outbound_rpc api o srs_override peer object args =
      let error = outbound_error api o object in
      if is_ok error
      then record {
        error = ok;
        commands =
            send_all api o (from_peer_of api srs_override) object args
              (o.modify_targets (target_peers api o peer));
        called_local = o.call_local && (is_client api || (srs_override == 0));
      }
      else record { error = error; commands = []; called_local = false }
