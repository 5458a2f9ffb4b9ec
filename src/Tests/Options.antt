-- ===== src/Tests/Options.antt =====
-- The witnesses of the theorems on configurations.
use godot_godaemon_multiplay.Prelude.{refl}
use godot_godaemon_multiplay.Config.{int, get_options, get_convert_options}
use godot_godaemon_multiplay.Config.Options.{Converted, get_convert_options-Converted}
use godot_godaemon_multiplay.Tests.Setting.{accepting, conversions, config_of}

get_convert_options-Converted_example :
    Converted accepting conversions
      (get_options (config_of 9 (int 3)))
      (get_convert_options accepting conversions (config_of 9 (int 3)))
get_convert_options-Converted_example =
    get_convert_options-Converted accepting conversions (config_of 9 (int 3))
      (unfold get_options in refl)
