-- ===== src/Godot.antt =====
-- What the extension takes from Godot's `MultiplayerPeer` (godot-cpp and the engine, not modelled):
-- the enumerations, by the values of gdextension/extension_api.json, and the signals it emits.
use godot_godaemon_multiplay.Prelude.{ℕ, Bool, true, false}

-- The values of `godot::Error` that the extension returns.
pub data Error : Type 0 where
  ok err_unavailable err_unconfigured err_invalid_parameter err_bug : Error
  err_already_in_use err_cant_open err_cant_create err_cant_connect : Error

pub data TransferMode : Type 0 where
  unreliable unreliable_ordered reliable : TransferMode

-- The value of the enumerator, as C++ converts it to `int`.
abbrev pub transfer_mode_value : TransferMode → ℕ
transfer_mode_value unreliable = 0
transfer_mode_value unreliable_ordered = 1
transfer_mode_value reliable = 2

pub data ConnectionStatus : Type 0 where
  disconnected connecting connected : ConnectionStatus

-- `s == CONNECTION_CONNECTED`.
abbrev pub is_connected : ConnectionStatus → Bool
is_connected connected = true
is_connected disconnected = false
is_connected connecting = false

-- `emit_signal("peer_connected", id)` and `emit_signal("peer_disconnected", id)`.
pub data Signal : Type 0 where
  peer_connected : ℕ → Signal
  peer_disconnected : ℕ → Signal
