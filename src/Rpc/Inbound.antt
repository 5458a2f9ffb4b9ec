-- ===== src/Rpc/Inbound.antt =====
-- `inbound_rpc` (demo/addons/godaemon_multiplayer/api/rpc.gd): a call that has come in, its checks, and
-- what is done with it.
use godot_godaemon_multiplay.Prelude.{
  ℕ, Bool, false, not, ◌&&◌, Option, none, some, List, if◌then◌else◌,
}
use godot_godaemon_multiplay.Engine.{Engine}
use godot_godaemon_multiplay.Repository.{Repository, get_object}
use godot_godaemon_multiplay.Rpc.{Api, is_server, decompress_rpc, Receivers, Delivery, route}

-- What the engine, the configuration, the rate limiter and the filters answer for a call; the filters
-- for the call's own target are those of `Receivers`.
pub record Incoming : Type 0 where
  pub is_instance_valid : ℕ → Bool
  pub has_script : Bool
  pub has_config : Bool
  pub has_method : Bool
  pub can_they_send : ℕ → Bool  -- config.can_they_send(object, from_peer)
  pub within_ratelimit : Bool  -- _check_rpc_ratelimit(from_peer, object, config)
  pub receivers : Receivers

-- The checks, in their order; those before the rate limit have no effect.
unfoldable pub is_admitted : Api → Incoming → ℕ → ℕ → Bool
is_admitted api i from_peer to_peer =
    if not i.has_script
    then false
    else if not i.has_config
    then false
    else if not i.has_method
    then false
    else if is_server api && i.receivers.on_node && not (i.can_they_send from_peer)
    then false
    else if not i.within_ratelimit
    then false
    else i.receivers.passes_filters to_peer

module _ {V : Type 0} (engine : Engine V) where
  -- `none` where it returns before the call; with the repository, from which `get_object` may erase.
  unfoldable pub inbound_rpc : Api → Incoming → ℕ → List ℕ → Option (List Delivery) × Repository
  inbound_rpc api i id bytes = elim (decompress_rpc engine api id bytes) [
    | none ↦ (none, api.repository)
    | some call ↦
        let (found, repository) = get_object i.is_instance_valid call.object_id api.repository in
        elim found [
          | none ↦ (none, repository)
          | some object ↦
              if is_admitted api i call.from_peer call.to_peer
              then (some (route i.receivers id call.from_peer call.to_peer), repository)
              else (none, repository)
        ]
  ]
