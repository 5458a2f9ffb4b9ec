-- ===== src/Config.antt =====
-- `SteamPeerConfig` (godaemon-cpp/steam_peer_config.h and .cpp): options by number, in a Godot
-- `Dictionary` with integer keys. `none` as a result is a write through a pointer that points nowhere.
pub mod Names
pub mod PeerNames
pub mod Options
use godot_godaemon_multiplay.Prelude.{
  ℕ, zero, suc, Option, none, some, List, [], ◌∷◌, ◌==◌, if◌then◌else◌, length, set, u32,
}
use godot_godaemon_multiplay.HashMap
use godot_godaemon_multiplay.HashMap.{HashMap}
use godot_godaemon_multiplay.Steam.{Env}
use godot_godaemon_multiplay.Steam.Types.{ConfigValue}
use godot_godaemon_multiplay.Steam.Types

-- Godot's `Variant`, as far as the class looks at it: an integer by its 64-bit pattern, a float by
-- its bits, a string by its bytes, an object by its address; `other` is any other type.
pub data Variant : Type 0 where
  int : ℕ → Variant
  float : ℕ → Variant
  string : List ℕ → Variant
  object : ℕ → Variant
  other : ℕ → Variant

-- Godot's conversions of a `Variant`, which the engine makes: to a C++ `float`, and to an object.
pub record Conversions : Type 0 where
  pub to_float32 : ℕ → ℕ
  pub to_object : Variant → ℕ

-- The member `option_array` is a pointer that no operation of the class sets.
pub record SteamPeerConfig : Type 0 where
  pub options : HashMap Variant
  pub option_array : Option (List ConfigValue)

unfoldable pub new_config : SteamPeerConfig
new_config = record { options = []; option_array = none }

unfoldable pub get_options : SteamPeerConfig → HashMap Variant
get_options c = c.options

unfoldable pub size : SteamPeerConfig → ℕ
size c = length c.options

unfoldable pub set_options : HashMap Variant → SteamPeerConfig → SteamPeerConfig
set_options new_options c = record c { options = new_options }

unfoldable pub clear_all_configs : SteamPeerConfig → SteamPeerConfig
clear_all_configs c = record c { options = [] }

unfoldable pub set_config : ℕ → Variant → SteamPeerConfig → SteamPeerConfig
set_config config value c = record c { options = HashMap.insert config value c.options }

unfoldable pub clear_config : ℕ → SteamPeerConfig → SteamPeerConfig
clear_config config c = record c { options = HashMap.erase config c.options }

module _ {W : Type 0} (env : Env W) (conv : Conversions) where
  -- One round of the loop of `get_convert_options`. A string is copied by `strcpy` into a null pointer.
  unfoldable pub convert_option : ℕ → Variant → Option ConfigValue
  convert_option key (int n) =
      if key == env.config_connection_user_data
      then some (Types.int64 key n)
      else some (Types.int32 key (u32 n))
  convert_option key (float x) = some (Types.float key (conv.to_float32 x))
  convert_option key (string s) = none
  convert_option key (object a) = some (Types.ptr key (conv.to_object (object a)))
  convert_option key (other t) = some (Types.ptr key (conv.to_object (other t)))

  unfoldable pub convert_loop : HashMap Variant → Option (List ConfigValue)
  convert_loop [] = some []
  convert_loop ((key, value) ∷ rest) = elim (convert_option key value) [
    | none ↦ none
    | some option ↦ elim (convert_loop rest) [
      | none ↦ none
      | some options ↦ some (option ∷ options)
    ]
  ]

  unfoldable pub get_convert_options : SteamPeerConfig → Option (List ConfigValue)
  get_convert_options c = convert_loop c.options

  -- The call that `apply_options` makes for one option; `none` is the `strcpy` into a null pointer.
  unfoldable pub apply_option : ℕ → ℕ → Variant → W → Option W
  apply_option handle key (int n) w =
      if key == env.config_connection_user_data
      then some w
      else some (env.set_connection_config_value handle (Types.int32 key (u32 n)) w)
  apply_option handle key (float x) w =
      some (env.set_connection_config_value handle (Types.float key (conv.to_float32 x)) w)
  apply_option handle key (string s) w = none
  apply_option handle key (object a) w = some w
  apply_option handle key (other t) w = some w

  -- The loop of `apply_options` from round `i`: after the call it assigns `option_array[i]`, where
  -- `this_option` is the value `empty`, never filled in.
  unfoldable pub apply_loop :
      ℕ → ConfigValue → ℕ → HashMap Variant → Option (List ConfigValue) → W → Option W
  apply_loop handle empty i [] array w = some w
  apply_loop handle empty i ((key, value) ∷ rest) array w = elim (apply_option handle key value w) [
    | none ↦ none
    | some w' ↦ elim array [
      | none ↦ none
      | some slots ↦ apply_loop handle empty (suc i) rest (some (set slots i empty)) w'
    ]
  ]

  unfoldable pub apply_options : ℕ → SteamPeerConfig → W → Option W
  apply_options handle c w = apply_loop handle (Types.int32 0 0) 0 c.options c.option_array w
