-- ===== src/Steam/Types.antt =====
-- Data that passes between the extension and Steamworks.
use godot_godaemon_multiplay.Prelude.{ℕ, List}

-- `SteamMultiplayerPeer::NetworkingConnectionState`, Steam's `ESteamNetworkingConnectionState`.
pub data NetworkingConnectionState : Type 0 where
  none connecting finding_route connected closed_by_peer : NetworkingConnectionState
  problem_detected_locally fin_wait linger dead force_32bit : NetworkingConnectionState

-- The reasons that the extension gives to `CloseConnection`; `unspecified` is its 0.
pub data ConnectionEnd : Type 0 where
  app_generic app_exception_generic unspecified : ConnectionEnd

-- `SteamNetworkingConfigValue_t`: the number of the option and its value. An integer is a word, a
-- float a bit pattern, a string its bytes and a pointer an address.
pub data ConfigValue : Type 0 where
  int32 : ℕ → ℕ → ConfigValue
  int64 : ℕ → ℕ → ConfigValue
  float : ℕ → ℕ → ConfigValue
  string : ℕ → List ℕ → ConfigValue
  ptr : ℕ → ℕ → ConfigValue

-- `SteamNetworkingMessage_t`: `m_identityPeer`, `m_nFlags`, and the bytes that `GetData` and
-- `GetSize` give.
pub record Message : Type 0 where
  pub identity_peer : ℕ
  pub flags : ℕ
  pub payload : List ℕ

-- `SteamNetConnectionStatusChangedCallback_t` with the fields of its `m_info` that are read.
pub record StatusChanged : Type 0 where
  pub connection : ℕ
  pub old_state : NetworkingConnectionState
  pub state : NetworkingConnectionState
  pub listen_socket : ℕ
  pub identity_remote : ℕ
  pub user_data : ℕ
