-- ===== src/Protocol/Document.antt =====
-- The values of the two documents, where they have the types that the documents have. A key that
-- the code reads with `get` and tests is an `Option`.
use mathlib.Core.Logic.{dite}
use qos_extended_mros2_esp.Base.{
  ℕ, ◌≡◌, String, Bool, true, not, ◌&&◌, ap, Option, List, [], ◌∷◌, contains, Eq, string_eq, arith,
}
use qos_extended_mros2_esp.Base.Dict.{Dict}
use qos_extended_mros2_esp.Base.Int.{ℤ, int_eq}

-- A value of a cell or of a pair. Numbers with a fraction are not modelled.
pub data Value : Type 0 where
  text : String → Value
  number : ℤ → Value

pub text_injective : {s t : String} → text s ≡ text t → s ≡ t
text_injective h = cc

pub number_injective : {n m : ℤ} → number n ≡ number m → n ≡ m
number_injective h = cc

value_dec : Discrete Value
value_dec (text s) (text t) =
    dite (string_eq.dec s t) (λ p. yes (ap text p)) (λ n. no (λ p. n (text_injective p)))
value_dec (text s) (number n) = no (λ p. absurd (ground (arith, p)))
value_dec (number n) (text s) = no (λ p. absurd (ground (arith, p)))
value_dec (number n) (number m) =
    dite (int_eq.dec n m) (λ p. yes (ap number p)) (λ k. no (λ p. k (number_injective p)))

instance unfoldable pub value_eq : Eq Value
unfolding value_dec
value_eq = record { dec = value_dec }

pub record Cell : Type 0 where
  pub id : Option String
  pub role : Option String
  pub factors : Dict String Value

pub record Performance : Type 0 where
  pub status : Option String
  pub accepted_runs_per_cell : Option ℤ
  pub visits_per_family : ℤ
  pub accepted_runs_per_cell_per_visit : ℤ
  pub new_families : Dict String (List Cell)
  pub expected_new_cells : Option ℤ
  pub expected_new_accepted_runs : Option ℤ
  pub expected_combined_new_runs_after_h2b : Option ℤ

-- A pair's settings are its other values; `expected_match` is there when it is a Boolean.
pub record Pair : Type 0 where
  pub settings : Dict String Value
  pub expected_match : Option Bool

pub record Matrix : Type 0 where
  pub id : String
  pub policy : String
  pub kind : Option String
  pub directions : List String
  pub endpoint_creation_orders : List String
  pub pairs : List Pair
  pub expected_expanded_cases : Option ℕ

pub record Case : Type 0 where
  pub id : String
  pub policy : String
  pub level : String
  pub expected : String

pub record Deterministic : Type 0 where
  pub status : Option String
  pub performance_pooling_forbidden : Bool
  pub compatibility_matrices : List Matrix
  pub mechanism_cases : List Case
  pub expected_expanded_compatibility_cases : Option ℕ
  pub expected_mechanism_cases : Option ℕ
  pub expected_total_cases : Option ℕ

-- One constructor for each `require`.
pub data ProtocolError : Type 0 where
  performance_status bad_runs_per_cell visits_mismatch family_set cell_count bad_cell_id :
      ProtocolError
  duplicate_cell_id ids_not_unique cell_total run_total combined_total : ProtocolError
  anchor_count few_factors missing_main_cell : ProtocolError
  deterministic_status pooling_allowed duplicate_matrix_id no_directions no_orders no_pairs :
      ProtocolError
  bad_expected_match expanded_mismatch bad_case_id duplicate_case_id : ProtocolError
  compatibility_total mechanism_total deterministic_total : ProtocolError

-- `len(xs) == len(set(xs))`
unfoldable pub all_distinct : List String → Bool
all_distinct [] = true
all_distinct (x ∷ xs) = not (contains xs x) && all_distinct xs
