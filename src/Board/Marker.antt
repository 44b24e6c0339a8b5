-- ===== src/Board/Marker.antt =====
-- `parse_marker`, `integer`, and the errors of `validate_log`.
use qos_extended_mros2_esp.Base.{
  ℕ, ◌<>◌, String, Bool, true, false, Option, none, some, List, [], ◌∷◌, ◌++◌, if◌then◌else◌,
  string_eq,
}
use qos_extended_mros2_esp.Base.Int.{ℤ, negsuc}
use qos_extended_mros2_esp.Base.Dict.{Dict, lookup, insert}
use qos_extended_mros2_esp.Base.Text.{words, partition, strip_prefix, starts_with}
use qos_extended_mros2_esp.Base.Number.{int_base_10}

abbrev pub Fields : Type 0
Fields = Dict String String

-- One constructor for each text that is appended to `errors`.
pub data BoardError : Type 0 where
  config_count final_count markers_after_final : ℕ → BoardError
  crash_marker config_field final_field invalid_integer : String → BoardError
  unsupported_schema final_status timing_background wrong_capacity : BoardError
  attempts_unreconciled bytes_unreconciled nonpositive_heap heap_corrupted : BoardError
  sample_bound sample_reject byte_bound allocation_failure resource_recovery : BoardError
  pressure keep_last keep_all duplicate_delivery gap_repair epoch_transition : BoardError
  pbuf_release volatile_late replay_window epoch_not_nvs no_persistent_reset : BoardError
  replay_depth fragmented_replay deadline_event deadline_boundary : BoardError
  deadline_repeated deadline_recovery lifespan_hold lifespan_drops : BoardError
  lifespan_history startup_transition loss_transition recovery_transition : BoardError
  infinite_transition unsupported_kind : BoardError

abbrev pub Errors : Type 0
Errors = List BoardError

-- `if test: errors.append(error)`
unfoldable pub when : Bool → BoardError → Errors
when true error = error ∷ []
when false error = []

-- The errors of several tests, in their order.
unfoldable pub joined : List Errors → Errors
joined [] = []
joined (errors ∷ more) = errors ++ joined more

-- The loop of `parse_marker`.
unfoldable pub fields_from : Fields → List String → Fields
fields_from fields [] = fields
fields_from fields (token ∷ tokens) = elim (partition b'=' token) [
  | none ↦ fields_from fields tokens
  | some (key, value) ↦ fields_from (insert key value fields) tokens
]

unfoldable pub parse_marker : String → String → Option Fields
parse_marker line prefix = elim (strip_prefix (prefix <> " ") line) [
  | none ↦ none
  | some rest ↦ some (fields_from [] (words rest))
]

unfoldable pub integer : Fields → String → ℤ × Errors
integer fields name = elim (lookup name fields) [
  | none ↦ (negsuc 0, invalid_integer name ∷ [])
  | some text ↦ elim (int_base_10 text) [
    | none ↦ (negsuc 0, invalid_integer name ∷ [])
    | some n ↦ (n, [])
  ]
]

-- `integer` on each name in turn, with the errors.
unfoldable pub integer_errors : Fields → List String → Errors
integer_errors fields [] = []
integer_errors fields (name ∷ names) = (integer fields name).1 ++ integer_errors fields names

-- The markers with a prefix, in the order of the log.
unfoldable pub markers : String → List String → List Fields
markers prefix [] = []
markers prefix (line ∷ lines) =
    let rest = markers prefix lines in
    elim (parse_marker line prefix) [ none ↦ rest | some fields ↦ fields ∷ rest ]

-- The machine markers behind the first final marker.
unfoldable pub count_markers : List String → ℕ
count_markers [] = 0
count_markers (line ∷ lines) =
    let rest = count_markers lines in if starts_with line "MECH_BOARD_" then ℕ.suc rest else rest

unfoldable pub post_final : List String → ℕ
post_final [] = 0
post_final (line ∷ lines) =
    let rest = post_final lines in
    if starts_with line "MECH_BOARD_FINAL " then count_markers lines else rest
