-- ===== src/Compare/Serial.antt =====
-- `parse_compare_serial` and the functions that it calls. The lines of the log are an argument.
use qos_extended_mros2_esp.Base.{
  ℕ, suc, String, Bool, true, false, not, ◌||◌, Option, none, some, List, [], ◌∷◌, ◌++◌, length,
  ltb, ◌==◌, last?, string_eq, option_eq, nat_eq, if◌then◌else◌,
}
use qos_extended_mros2_esp.Base.Int.{ℤ, pos, negsuc, ltb_ℤ, leb_ℤ, int_eq}
use qos_extended_mros2_esp.Base.Dict.{Dict, lookup, insert, push}
use qos_extended_mros2_esp.Base.Text.{words, partition, starts_with}
use qos_extended_mros2_esp.Base.Number.{int_base_10}

abbrev pub Fields : Type 0
Fields = Dict String String

abbrev pub system_order : List String
system_order = "mros2qos" ∷ "upstream" ∷ "microros" ∷ []

-- One constructor for each text that is appended to `errors`.
pub data SerialError : Type 0 where
  invalid_integer config_mismatch final_mismatch final_stat_mismatch : String → SerialError
  system_mismatch : String → SerialError
  record_count : String → ℕ → SerialError
  rtt_sequence_range rtt_duplicate rtt_value_range rtt_after_final : ℤ → SerialError
  firmware_fatal ready_negative resource_heap_nonpositive final_system_mismatch : SerialError
  final_rx_samples_mismatch final_rtt_count_mismatch final_ready_mismatch : SerialError
  session_ready_order publish_failures : SerialError

abbrev pub Errors : Type 0
Errors = List SerialError

-- `if test: errors.append(error)`
unfoldable pub when : Bool → SerialError → Errors
when true error = error ∷ []
when false error = []

-- The errors of several tests, in their order.
unfoldable pub joined : List Errors → Errors
joined [] = []
joined (errors ∷ more) = errors ++ joined more

-- `_compare_line`: the log from the marker on. The marker's own text is not blank, and the words
-- that follow are read without the space around them.
unfoldable pub compare_line : String → Option String
compare_line String.[] = none
compare_line (String.◌∷◌ c s) =
    let rest = compare_line s in
    if starts_with (String.◌∷◌ c s) "COMPARE_" then some (String.◌∷◌ c s) else rest

unfoldable pub fields_from : Fields → List String → Fields
fields_from fields [] = fields
fields_from fields (part ∷ parts) = elim (partition b'=' part) [
  | none ↦ fields_from fields parts
  | some (key, value) ↦ fields_from (insert key value fields) parts
]

-- `_fields`, of the words of a line.
unfoldable pub fields_of : List String → String × Fields
fields_of [] = ("", [])
fields_of (kind ∷ parts) = (kind, fields_from [] parts)

-- `_integer`: -1 and an error where there is no integer.
unfoldable pub integer : Fields → String → ℤ × Errors
integer fields key = elim (lookup key fields) [
  | none ↦ (negsuc 0, invalid_integer key ∷ [])
  | some text ↦ elim (int_base_10 text) [
    | none ↦ (negsuc 0, invalid_integer key ∷ [])
    | some n ↦ (n, [])
  ]
]

pub record Entry : Type 0 where
  pub line_number : ℕ
  pub record_type : String
  pub fields : Fields

-- The first loop, from a line number on.
unfoldable pub records_from : ℕ → List String → List Entry
records_from line_number [] = []
records_from line_number (raw_line ∷ lines) =
    let rest = records_from (suc line_number) lines in
    elim (compare_line raw_line) [
      | none ↦ rest
      | some line ↦
          let (kind, fields) = fields_of (words line) in
          record { line_number = line_number; record_type = kind; fields = fields } ∷ rest
    ]

abbrev pub ByType : Type 0
ByType = Dict String (List (ℕ × Fields))

-- The loop that groups the records.
unfoldable pub group_from : ByType → List Entry → ByType
group_from by_type [] = by_type
group_from by_type (e ∷ records) =
    group_from (push e.record_type (e.line_number, e.fields) by_type) records

-- The errors that the same loop appends.
unfoldable pub system_errors : String → List Entry → Errors
system_errors expected [] = []
system_errors expected (e ∷ records) =
    let system = lookup "system" e.fields in
    when (not (system == none || system == some expected)) (system_mismatch e.record_type)
    ++ system_errors expected records

-- `by_type.get(kind, [])`
unfoldable pub entries : String → ByType → List (ℕ × Fields)
entries kind by_type = elim (lookup kind by_type) [ none ↦ [] | some found ↦ found ]

-- `by_type.get(kind, [(line, {})])[-1]`
unfoldable pub last_entry : ℕ → String → ByType → ℕ × Fields
last_entry line kind by_type = elim (last? (entries kind by_type)) [
  | none ↦ (line, [])
  | some e ↦ e
]

unfoldable pub count_errors : ByType → List String → Errors
count_errors by_type [] = []
count_errors by_type (kind ∷ kinds) =
    let count = length (entries kind by_type) in
    when (not (count == 1)) (record_count kind count) ++ count_errors by_type kinds

abbrev pub required_once : List String
required_once = "COMPARE_CONFIG" ∷ "COMPARE_READY" ∷ "COMPARE_RESOURCE" ∷ "COMPARE_FINAL" ∷ []

abbrev pub expected_config : String → List (String × String)
expected_config system =
    ("system", system)
    ∷ ("qos", "BEST_EFFORT")
    ∷ ("payload_bytes", "64")
    ∷ ("messages", "40")
    ∷ ("period_ms", "500")
    ∷ ("settle_ms", "1000")
    ∷ ("grace_ms", "5000")
    ∷ []

unfoldable pub config_errors : Fields → List (String × String) → Errors
config_errors config [] = []
config_errors config ((key, value) ∷ rest) =
    when (not (lookup key config == some value)) (config_mismatch key) ++ config_errors config rest

abbrev pub Rtts : Type 0
Rtts = Dict ℤ ℤ

-- The three branches on the sequence number.
unfoldable pub with_sequence : Rtts → ℤ → ℤ → Rtts × Errors
with_sequence rtts sequence rtt_us =
    if ltb_ℤ sequence (pos 0) || leb_ℤ (pos 40) sequence
    then (rtts, rtt_sequence_range sequence ∷ [])
    else elim (lookup sequence rtts) [
      | some old ↦ (rtts, rtt_duplicate sequence ∷ [])
      | none ↦ (insert sequence rtt_us rtts, [])
    ]

-- The body of the loop over the samples.
unfoldable pub with_sample : ℕ → Rtts → ℕ × Fields → Rtts × Errors
with_sample final_line rtts (line_number, fields) =
    let (sequence, no_sequence) = integer fields "seq" in
    let (rtt_us, no_rtt) = integer fields "rtt_us" in
    let (more, wrong) = with_sequence rtts sequence rtt_us in
    (
      more,
      joined (
          no_sequence
          ∷ no_rtt
          ∷ wrong
          ∷ when (leb_ℤ rtt_us (pos 0) || leb_ℤ (pos 10_000_000) rtt_us) (rtt_value_range sequence)
          ∷ when (ltb final_line line_number) (rtt_after_final sequence)
          ∷ []),
    )

unfoldable pub samples_from : ℕ → Rtts → List (ℕ × Fields) → Rtts × Errors
samples_from final_line rtts [] = (rtts, [])
samples_from final_line rtts (sample ∷ samples) =
    let (more, wrong) = with_sample final_line rtts sample in
    let (all, later) = samples_from final_line more samples in (all, wrong ++ later)
