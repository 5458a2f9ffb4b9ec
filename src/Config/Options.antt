-- ===== src/Config/Options.antt =====
-- What the configuration keeps, and what it passes on to Steam.
use godot_godaemon_multiplay.Prelude.{
  ℕ, ◌≡◌, refl, ◌∙◌, inl, inr, Bool, true, false, Option, none, some, List, [], ◌∷◌, map, arith,
  ◌==◌, if◌then◌else◌, u32, length, Bool-cases,
}
use godot_godaemon_multiplay.HashMap.{HashMap}
use godot_godaemon_multiplay.Steam.{Env}
use godot_godaemon_multiplay.Steam.Types.{ConfigValue}
use godot_godaemon_multiplay.Steam.Types
use godot_godaemon_multiplay.Config.{
  Variant, int, float, string, object, other, Conversions, SteamPeerConfig, new_config, get_options,
  size, set_options, clear_all_configs, set_config, clear_config, convert_option, convert_loop,
  get_convert_options, apply_loop, apply_options,
}

-- Some option is a string.
abbrev pub has_string : HashMap Variant → Bool
has_string [] = false
has_string ((k, string s) ∷ m) = true
has_string ((k, int n) ∷ m) = has_string m
has_string ((k, float x) ∷ m) = has_string m
has_string ((k, object a) ∷ m) = has_string m
has_string ((k, other t) ∷ m) = has_string m

-- The number of the option that a value is for.
abbrev pub option_number : ConfigValue → ℕ
option_number (Types.int32 k n) = k
option_number (Types.int64 k n) = k
option_number (Types.float k x) = k
option_number (Types.string k s) = k
option_number (Types.ptr k a) = k

module _ {W : Type 0} (env : Env W) (conv : Conversions) where
  abbrev pub Converted : HashMap Variant → Option (List ConfigValue) → Type 0
  Converted m r =
      (options : List ConfigValue) × (r ≡ some options)
      × (map option_number options ≡ map (λ (e : ℕ × Variant). e.0) m)

  Converted-cons :
      (k : ℕ) (v : Variant) (o : ConfigValue) (m : HashMap Variant)
      → convert_option env conv k v ≡ some o
      → option_number o ≡ k
      → Converted m (convert_loop env conv m)
      → Converted ((k, v) ∷ m) (convert_loop env conv ((k, v) ∷ m))
  unfolding convert_loop
  Converted-cons k v o m e n (options, same, keys) = (o ∷ options, ground arith, cc)

  convert_int :
      (k n : ℕ)
      → (o : ConfigValue) × (convert_option env conv k (int n) ≡ some o) × (option_number o ≡ k)
  unfolding convert_option
  convert_int k n = elim (Bool-cases (k == env.config_connection_user_data)) [
    | inl e ↦ (Types.int64 k n, rw e, refl)
    | inr e ↦ (Types.int32 k (u32 n), rw e, refl)
  ]

  convert_loop-Converted :
      (m : HashMap Variant) → has_string m ≡ false → Converted m (convert_loop env conv m)
  unfolding convert_loop convert_option
  convert_loop-Converted [] h = ([], refl, refl)
  convert_loop-Converted ((k, string s) ∷ m) h = cc
  convert_loop-Converted ((k, int n) ∷ m) h =
      let (o, e, number) = convert_int k n in
      Converted-cons k (int n) o m e number (convert_loop-Converted m h)
  convert_loop-Converted ((k, float x) ∷ m) h =
      Converted-cons k (float x) _ m refl refl (convert_loop-Converted m h)
  convert_loop-Converted ((k, object a) ∷ m) h =
      Converted-cons k (object a) _ m refl refl (convert_loop-Converted m h)
  convert_loop-Converted ((k, other t) ∷ m) h =
      Converted-cons k (other t) _ m refl refl (convert_loop-Converted m h)

  convert_loop_string : (m : HashMap Variant) → has_string m ≡ true → convert_loop env conv m ≡ none
  unfolding convert_loop convert_option
  convert_loop_string [] h = cc
  convert_loop_string ((k, string s) ∷ m) h = refl
  convert_loop_string ((k, int n) ∷ m) h = ground (arith, convert_loop_string m h)
  convert_loop_string ((k, float x) ∷ m) h = ground (arith, convert_loop_string m h)
  convert_loop_string ((k, object a) ∷ m) h = ground (arith, convert_loop_string m h)
  convert_loop_string ((k, other t) ∷ m) h = ground (arith, convert_loop_string m h)

  -- Where no option is a string, `get_convert_options` gives one value for each option, with the
  -- option's number and in the order of the dictionary.
  pub get_convert_options-Converted :
      (c : SteamPeerConfig)
      → has_string (get_options c) ≡ false
      → Converted (get_options c) (get_convert_options env conv c)
  unfolding get_convert_options get_options
  get_convert_options-Converted c h = convert_loop-Converted c.options h

  -- Where some option is a string, `get_convert_options` writes through a null pointer.
  pub get_convert_options_string :
      (c : SteamPeerConfig)
      → has_string (get_options c) ≡ true
      → get_convert_options env conv c ≡ none
  unfolding get_convert_options get_options
  get_convert_options_string c h = convert_loop_string c.options h

-- A script's calls on a configuration.
pub data ConfigCall : Type 0 where
  options_set : HashMap Variant → ConfigCall
  config_set : ℕ → Variant → ConfigCall
  config_cleared : ℕ → ConfigCall
  all_cleared : ConfigCall

unfoldable pub config_step : ConfigCall → SteamPeerConfig → SteamPeerConfig
config_step (options_set m) c = set_options m c
config_step (config_set k v) c = set_config k v c
config_step (config_cleared k) c = clear_config k c
config_step all_cleared c = clear_all_configs c

unfoldable pub config_after : List ConfigCall → SteamPeerConfig
unfolding config_step
config_after [] = new_config
config_after (call ∷ earlier) = config_step call (config_after earlier)

option_array-step :
    (call : ConfigCall) (c : SteamPeerConfig) → (config_step call c).option_array ≡ c.option_array
unfolding config_step set_options set_config clear_config clear_all_configs
option_array-step (options_set m) c = refl
option_array-step (config_set k v) c = refl
option_array-step (config_cleared k) c = refl
option_array-step all_cleared c = refl

option_array-config_after : (calls : List ConfigCall) → (config_after calls).option_array ≡ none
unfolding config_after new_config
option_array-config_after [] = refl
option_array-config_after (call ∷ earlier) =
    option_array-step call (config_after earlier) ∙ option_array-config_after earlier

module _ {W : Type 0} (env : Env W) (conv : Conversions) where
  apply_loop_unset :
      (handle : ℕ) (o : ConfigValue) (m : HashMap Variant) (w : W)
      → apply_loop env conv handle o 0 m none w ≡ (if length m == 0 then some w else none)
  unfolding apply_loop
  apply_loop_unset handle o [] w = refl
  apply_loop_unset handle o ((k, v) ∷ m) w = ground arith

  -- On every configuration that scripts can build, `apply_options` does nothing if there is no
  -- option, and otherwise writes through `option_array`, which was never set.
  pub apply_options-config_after :
      (calls : List ConfigCall) (handle : ℕ) (w : W)
      → apply_options env conv handle (config_after calls) w
        ≡ (if size (config_after calls) == 0 then some w else none)
  unfolding apply_options size
  apply_options-config_after calls handle w =
      rw (option_array-config_after calls)
        (apply_loop_unset handle (Types.int32 0 0) (config_after calls).options w)
