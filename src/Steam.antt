-- ===== src/Steam.antt =====
-- The Steamworks calls that the extension makes, as a parameter of the model: the SDK is not part
-- of the repository. `W` is the state of everything outside the peer object.
pub mod Types
use godot_godaemon_multiplay.Prelude.{ℕ, ◌≡◌, ◌<◌, ◌≤◌, Bool, List, Option, length}
use godot_godaemon_multiplay.EResult.{EResult}
use Types.{ConfigValue, ConnectionEnd, Message}

pub record Constants : Type 0 where
  pub send_unreliable : ℕ  -- k_nSteamNetworkingSend_Unreliable
  pub send_no_nagle : ℕ  -- k_nSteamNetworkingSend_NoNagle
  pub send_no_delay : ℕ  -- k_nSteamNetworkingSend_NoDelay
  pub send_reliable : ℕ  -- k_nSteamNetworkingSend_Reliable
  pub max_steam_packet_size : ℕ  -- k_cbMaxSteamNetworkingSocketsMessageSizeSend
  pub invalid_connection : ℕ  -- k_HSteamNetConnection_Invalid
  pub invalid_listen_socket : ℕ  -- k_HSteamListenSocket_Invalid
  pub config_connection_user_data : ℕ  -- k_ESteamNetworkingConfig_ConnectionUserData

-- The values that Valve documents in steamnetworkingtypes.h.
pub record AreDocumented (c : Constants) : Type 0 where
  pub unreliable_is : c.send_unreliable ≡ 0
  pub no_nagle_is : c.send_no_nagle ≡ 1
  pub no_delay_is : c.send_no_delay ≡ 4
  pub reliable_is : c.send_reliable ≡ 8

pub record Env (W : Type 0) : Type 0 where
  pub constants : Constants
  pub open constants use *
  -- whether `SteamNetworkingSockets()` is there, and the user's own Steam id: fixed for a session
  pub sockets : Bool
  pub own_steam_id : ℕ
  -- `CSteamID(account, k_EUniversePublic, k_EAccountTypeIndividual).ConvertToUint64()`
  pub individual_steam_id : ℕ → ℕ
  pub send_message_to_connection : ℕ → List ℕ → ℕ → W → EResult × W
  pub flush_messages_on_connection : ℕ → W → W
  pub close_connection : ℕ → ConnectionEnd → Bool → W → Bool × W
  pub accept_connection : ℕ → W → EResult × W
  -- at most so many messages; a failure gives none
  pub receive_messages_on_connection : ℕ → ℕ → W → List Message × W
  pub init_relay_network_access : W → W
  pub create_listen_socket_p2p : ℕ → List ConfigValue → W → ℕ × W
  pub close_listen_socket : ℕ → W → Bool × W
  pub connect_p2p : ℕ → ℕ → List ConfigValue → W → ℕ × W
  -- the two handles, where the call succeeds
  pub create_socket_pair : ℕ → ℕ → W → Option (ℕ × ℕ) × W
  -- `SetConnectionConfigValueInt32`, `…Float` and `…String`
  pub set_connection_config_value : ℕ → ConfigValue → W → W
  -- `MultiplayerPeer::generate_unique_id` of the engine
  pub generate_unique_id : W → ℕ × W
  -- `host_loopback_peer->disconnect_peer(id, true)`, a call of another peer object
  pub disconnect_host_peer : ℕ → W → W

-- What Godot documents of `generate_unique_id`: a positive `int32_t`, never the server's id 1.
abbrev pub GivesClientIds : {W : Type 0} → Env W → Type 0
GivesClientIds {W} env =
    (w : W) → (1 < (env.generate_unique_id w).0) × ((env.generate_unique_id w).0 < 2147483648)
