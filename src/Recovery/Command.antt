-- ===== src/Recovery/Command.antt =====
-- `esptool_reset_command`, and the defaults of a recovery. A `ValueError` is `none`.
use qos_extended_mros2_esp.Base.{ℕ, ◌<>◌, String, Option, none, some, List, [], ◌∷◌}
use qos_extended_mros2_esp.Base.Int.{ℤ, pos}

abbrev pub default_max_attempts : ℤ
default_max_attempts = pos 1

abbrev pub default_reachability_timeout_seconds : ℕ
default_reachability_timeout_seconds = 210

-- `a or b`, of texts that may be missing.
abbrev pub or_else : Option String → Option String → Option String
or_else none b = b
or_else (some String.[]) b = b
or_else (some (String.◌∷◌ c s)) b = some (String.◌∷◌ c s)

-- The variable `IDF_PATH` of the environment stands behind the argument of that name.
unfoldable pub esptool_reset_command :
    String → Option String → Option String → Option String → String → Option (List String)
esptool_reset_command serial_port idf_path environment_idf_path python executable =
    elim (or_else (or_else idf_path environment_idf_path) none) [
      | none ↦ none
      | some path ↦ some (
          (elim (or_else python none) [ none ↦ executable | some named ↦ named ])
          ∷ (path <> "/components/esptool_py/esptool/esptool.py")
          ∷ "--chip"
          ∷ "esp32s3"
          ∷ "-p"
          ∷ serial_port
          ∷ "--before"
          ∷ "default_reset"
          ∷ "--after"
          ∷ "hard_reset"
          ∷ "chip_id"
          ∷ [])
    ]
