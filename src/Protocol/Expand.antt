-- ===== src/Protocol/Expand.antt =====
-- `expand_cases`, and the schedule that `main` writes.
use Prim.Native.Char.{code}
use qos_extended_mros2_esp.Base.{
  ℕ, zero, suc, ◌+◌, ◌-◌, ◌<>◌, String, Bool, not, Option, none, some, List, [], ◌∷◌, ◌++◌, map,
  length, flat_map, ◌==◌, string_eq, eqb, if◌then◌else◌,
}
use qos_extended_mros2_esp.Base.Dict.{Dict, insert}
use qos_extended_mros2_esp.Base.Fields.{decimal_text}
use qos_extended_mros2_esp.Base.Int.{pos}
use qos_extended_mros2_esp.Base.Number.{decimal}
use qos_extended_mros2_esp.Base.Order.{sort_with}
use qos_extended_mros2_esp.Base.Result.{Result, ok, err, ◌>>=◌, ◌>>◌, raise_if}
use qos_extended_mros2_esp.Base.Text.{lower, text_le}
use qos_extended_mros2_esp.Protocol.Document.{
  Value, text, Pair, Matrix, Case, Deterministic, ProtocolError, all_distinct,
}
use qos_extended_mros2_esp.Protocol.Cases.{validate_deterministic}

pub data CaseType : Type 0 where
  compatibility mechanism : CaseType

-- What a row expects: a match or none of two endpoints, or a statement.
pub data Expected : Type 0 where
  expected_match : Option Bool → Expected
  statement : String → Expected

-- A row of the schedule. Its configuration and its expectation are the values of which it has the
-- JSON text.
pub record ScheduledCase : Type 0 where
  pub case_id : String
  pub case_type : CaseType
  pub source_id : String
  pub policy : String
  pub direction : String
  pub endpoint_creation_order : String
  pub level : String
  pub configuration : Dict String Value
  pub expected : Expected

-- `s.replace("_", "-")`
unfoldable pub dashed : String → String
dashed String.[] = String.[]
dashed (String.◌∷◌ c s) =
    let rest = dashed s in if eqb (code c) b'_' then String.◌∷◌ "-" rest else String.◌∷◌ c rest

abbrev pub slug : String → String
slug value = dashed (lower value)

-- So many zeros.
unfoldable pub zeros : ℕ → String
zeros zero = String.[]
zeros (suc n) = "0" <> zeros n

-- `len(str(n))`
abbrev pub width_of : ℕ → ℕ
width_of n = length (decimal (pos n))

-- `f"{n:0{width}d}"`
unfoldable pub padded : ℕ → ℕ → String
padded width n = zeros (width - width_of n) <> decimal_text (pos n)

abbrev pub configuration_of : Matrix → Pair → Dict String Value
configuration_of matrix pair = elim matrix.kind [
  | none ↦ pair.settings
  | some kind ↦ insert "kind" (text kind) pair.settings
]

abbrev pub pair_row : Matrix → String → String → ℕ → Pair → ScheduledCase
pair_row matrix direction order n pair = record {
  case_id =
      matrix.id
      <> "-"
      <> slug direction
      <> "-"
      <> slug order
      <> "-p"
      <> padded (width_of (length matrix.pairs)) n;
  case_type = compatibility;
  source_id = matrix.id;
  policy = matrix.policy;
  direction = direction;
  endpoint_creation_order = order;
  level = "hardware";
  configuration = configuration_of matrix pair;
  expected = expected_match pair.expected_match;
}

unfoldable pub pair_rows : Matrix → String → String → ℕ → List Pair → List ScheduledCase
pair_rows matrix direction order n [] = []
pair_rows matrix direction order n (pair ∷ pairs) =
    pair_row matrix direction order n pair ∷ pair_rows matrix direction order (n + 1) pairs

unfoldable pub matrix_rows : Matrix → List ScheduledCase
matrix_rows matrix =
    flat_map
      (λ direction.
        flat_map (λ order. pair_rows matrix direction order 1 matrix.pairs)
          matrix.endpoint_creation_orders)
      matrix.directions

abbrev pub case_row : Case → ScheduledCase
case_row c = record {
  case_id = c.id;
  case_type = mechanism;
  source_id = c.id;
  policy = c.policy;
  direction = "";
  endpoint_creation_order = "";
  level = c.level;
  configuration = [];
  expected = statement c.expected;
}

-- `str(index)` beside each row, from an index on.
unfoldable pub with_ordinals : ℕ → List ScheduledCase → List (String × ScheduledCase)
with_ordinals n [] = []
with_ordinals n (row ∷ rows) = (decimal_text (pos n), row) ∷ with_ordinals (n + 1) rows

abbrev pub unnumbered_rows : Deterministic → List ScheduledCase
unnumbered_rows draft =
    flat_map matrix_rows draft.compatibility_matrices ++ map case_row draft.mechanism_cases

unfoldable pub expand_cases : Deterministic → List (String × ScheduledCase)
expand_cases draft = with_ordinals 1 (unnumbered_rows draft)

-- `Counter` of the policies.
unfoldable pub count_in : String → Dict String ℕ → Dict String ℕ
count_in policy [] = (policy, 1) ∷ []
count_in policy ((other, n) ∷ counts) =
    let rest = count_in policy counts in
    if policy == other then (other, n + 1) ∷ counts else (other, n) ∷ rest

unfoldable pub count_policies : Dict String ℕ → List (String × ScheduledCase) → Dict String ℕ
count_policies counts [] = counts
count_policies counts (row ∷ rows) = count_policies (count_in row.1.policy counts) rows

pub data GenerateError : Type 0 where
  output_exists count_differs ids_differ : GenerateError
  invalid : ProtocolError → GenerateError

pub record Expanded : Type 0 where
  pub rows : List (String × ScheduledCase)
  pub compatibility_cases : ℕ
  pub mechanism_cases : ℕ
  pub total_cases : ℕ
  pub policy_counts : Dict String ℕ

abbrev pub id_of : String × ScheduledCase → String
id_of row = row.1.case_id

abbrev pub wrap : Result ProtocolError (ℕ × ℕ × ℕ) → Result GenerateError (ℕ × ℕ × ℕ)
wrap (err e) = err (invalid e)
wrap (ok counts) = ok counts

-- `main`, for an output that exists or not.
unfoldable pub generate : Bool → Deterministic → Result GenerateError Expanded
generate exists draft = do
  raise_if exists output_exists
  counts ← wrap (validate_deterministic draft)
  let rows = expand_cases draft
  raise_if (not (eqb (length rows) counts.2)) count_differs
  raise_if (not (all_distinct (map id_of rows))) ids_differ
  ok record {
    rows = rows;
    compatibility_cases = counts.0;
    mechanism_cases = counts.1;
    total_cases = counts.2;
    policy_counts = sort_with (λ (a b : String × ℕ). text_le a.0 b.0) (count_policies [] rows);
  }
