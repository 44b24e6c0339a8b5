-- ===== src/Telemetry/Samples.antt =====
-- What the sequence of the records, and the samples, of a log that passes are.
use qos_extended_mros2_esp.Base.{
  ◌≡◌, refl, ap, ◌∙◌, subst, String, true, false, not, Option, none, some, List, [], ◌∷◌, All, map,
  any, length, length-map, arith, eqb, ◌==◌, string_eq, option_eq,
}
use qos_extended_mros2_esp.Base.Dict.{lookup}
use qos_extended_mros2_esp.Base.Fields.{Fields}
use qos_extended_mros2_esp.Base.Int.{ℤ, pos, ◌≤ℤ◌, int_eq}
use qos_extended_mros2_esp.Base.Result.{Result, ok, >>=-eq-ok, raise_if, raise_if-eq-ok}
use qos_extended_mros2_esp.Telemetry.Record.{
  TelemetryError, dump_not_last, run_tokens, schemas, sample_count, sample_indices, sample_times,
  sample_fault, integer, each,
}
use qos_extended_mros2_esp.Telemetry.Parts.{
  dump_is_last, one_token, same_numbers, up_to, integers, all_fields, check_sequence, increasing,
  check_faults, check_samples,
}

module _ {ℓ κ} {A : Type ℓ} {B : Type κ} (f : A → Result TelemetryError B) where
  pub each-length : (xs : List A) (ys : List B) → each f xs ≡ ok ys → length ys ≡ length xs
  unfolding each
  each-length [] ys h = ground arith
  each-length (x ∷ xs) ys h =
      let (y, _, k) = >>=-eq-ok (f x) _ h in
      let (rest, more, same) = >>=-eq-ok (each f xs) _ k in
      ground (arith, same, each-length xs rest more)

  -- A test on what the elements give is a test on the elements.
  each-All :
      (P : B → Type 0) (xs : List A) (ys : List B)
      → each f xs ≡ ok ys
      → All P ys
      → All (λ x. (y : B) × (f x ≡ ok y) × P y) xs
  unfolding each
  each-All P [] ys h all = tt
  each-All P (x ∷ xs) ys h all =
      let (y, first, k) = >>=-eq-ok (f x) _ h in
      let (rest, more, same) = >>=-eq-ok (each f xs) _ k in
      let parts : ys ≡ y ∷ rest = ground (arith, same) in
      let both : All P (y ∷ rest) = subst (All P) parts all in
      ((y, first, both.0), each-All P xs rest more both.1)

same_numbers-eq : (xs ys : List ℤ) → same_numbers xs ys ≡ true → xs ≡ ys
unfolding same_numbers
same_numbers-eq [] [] h = refl
same_numbers-eq [] (y ∷ ys) h = absurd (ground arith)
same_numbers-eq (x ∷ xs) [] h = absurd (ground arith)
same_numbers-eq (x ∷ xs) (y ∷ ys) h = ground (arith, same_numbers-eq xs ys)

all_some :
    (token : String) (tokens : List (Option String))
    → any (λ other. not (other == some token)) tokens ≡ false
    → All (λ other. other ≡ some token) tokens
all_some token [] h = tt
all_some token (other ∷ tokens) h = (ground arith, all_some token tokens (ground arith))

one_token-All :
    (tokens : List (Option String))
    → one_token tokens ≡ true
    → (token : String) × All (λ other. other ≡ some token) tokens
unfolding one_token
one_token-All [] h = absurd (ground arith)
one_token-All (none ∷ tokens) h = absurd (ground arith)
one_token-All (some token ∷ tokens) h = (token, (refl, all_some token tokens (ground arith)))

All-of-map {ℓ κ μ} :
    {A : Type ℓ} {B : Type κ} (P : B → Type μ) (f : A → B) (xs : List A)
    → All P (map f xs)
    → All (λ x. P (f x)) xs
All-of-map P f [] h = tt
All-of-map P f (x ∷ xs) (p, h) = (p, All-of-map P f xs h)

all_ones :
    (versions : List ℤ)
    → any (λ version. not (version == pos 1)) versions ≡ false
    → All (λ version. version ≡ pos 1) versions
all_ones [] h = tt
all_ones (version ∷ versions) h = (ground arith, all_ones versions (ground arith))

-- The records are of one run, in one format, and counted from 0 with none left out.
pub record IsSequence (records : List (String × Fields)) : Type 0 where
  pub dump_last : dump_is_last records ≡ true
  pub one_run :
      (token : String) × All
        (λ (fields : Fields). lookup "run_token" fields ≡ some token)
        (all_fields records)
  pub one_schema :
      All
        (λ (fields : Fields). (v : ℤ) × (integer fields "schema" ≡ ok v) × (v ≡ pos 1))
        (all_fields records)
  pub gapless : integers "record_seq" (all_fields records) ≡ ok (up_to (length records))

pub check_sequence-IsSequence :
    (records : List (String × Fields)) (u : Unit {0})
    → check_sequence records ≡ ok u
    → IsSequence records
unfolding check_sequence
check_sequence-IsSequence records u h =
    let all = all_fields records in
    let tokens = map (λ fields. lookup "run_token" fields) all in
    let (_, h1, k1) = >>=-eq-ok (raise_if (not (dump_is_last records)) dump_not_last) _ h in
    let (_, h2, k2) = >>=-eq-ok (raise_if (not (one_token tokens)) run_tokens) _ k1 in
    let (versions, h3, k3) = >>=-eq-ok (integers "schema" all) _ k2 in
    let (_, h4, k4) =
      >>=-eq-ok (raise_if (any (λ version. not (version == pos 1)) versions) schemas) _ k3 in
    let (sequences, h5, k5) = >>=-eq-ok (integers "record_seq" all) _ k4 in
    let (token, same) = one_token-All tokens (ground (arith, raise_if-eq-ok _ _ h2)) in
    let counted : sequences ≡ up_to (length sequences) =
      same_numbers-eq sequences (up_to (length sequences))
        (ground (arith, raise_if-eq-ok _ _ k5)) in
    let as_many : length sequences ≡ length records =
      each-length (λ fields. integer fields "record_seq") all sequences h5 ∙ length-map _ records in
    record {
      dump_last = ground (arith, raise_if-eq-ok _ _ h1);
      one_run = (token, All-of-map _ _ all same);
      one_schema =
          each-All (λ fields. integer fields "schema") (λ v. v ≡ pos 1) all versions h3
            (all_ones versions (raise_if-eq-ok _ _ h4));
      gapless = h5 ∙ ap ok (counted ∙ ap up_to as_many);
    }

-- Each number is above the one before it.
abbrev pub IsRising : List ℤ → Type 0
IsRising [] = Unit
IsRising (x ∷ []) = Unit
IsRising (x ∷ y ∷ xs) = (y ≤ℤ x → ⊥) × IsRising (y ∷ xs)

increasing-IsRising : (xs : List ℤ) → increasing xs ≡ true → IsRising xs
unfolding increasing
increasing-IsRising [] h = tt
increasing-IsRising (x ∷ []) h = tt
increasing-IsRising (x ∷ y ∷ xs) h =
    ((λ le. absurd (ground arith)), increasing-IsRising (y ∷ xs) (ground arith))

check_faults-All :
    (samples : List Fields) (u : Unit {0})
    → check_faults samples ≡ ok u
    → All (λ fields. integer fields "fault_flags" ≡ ok (pos 0)) samples
unfolding check_faults
check_faults-All [] u h = tt
check_faults-All (fields ∷ samples) u h =
    let (flags, read, k1) = >>=-eq-ok (integer fields "fault_flags") _ h in
    let (_, test, k2) = >>=-eq-ok (raise_if (not (flags == pos 0)) sample_fault) _ k1 in
    (
      subst (λ n. integer fields "fault_flags" ≡ ok n) (ground (arith, raise_if-eq-ok _ _ test))
          read,
      check_faults-All samples u k2,
    )

-- 200 samples, with the indices 0 to 199, later and later, none with a fault.
pub record IsSampled (samples : List Fields) : Type 0 where
  pub two_hundred : length samples ≡ 200
  pub indices : integers "index" samples ≡ ok (up_to 200)
  pub rising : (times : List ℤ) × (integers "board_time_us" samples ≡ ok times) × IsRising times
  pub no_fault : All (λ fields. integer fields "fault_flags" ≡ ok (pos 0)) samples

pub check_samples-IsSampled :
    (samples : List Fields) (u : Unit {0}) → check_samples samples ≡ ok u → IsSampled samples
unfolding check_samples
check_samples-IsSampled samples u h =
    let (_, h1, k1) = >>=-eq-ok (raise_if (not (eqb (length samples) 200)) sample_count) _ h in
    let (indices, h2, k2) = >>=-eq-ok (integers "index" samples) _ k1 in
    let (_, h3, k3) =
      >>=-eq-ok (raise_if (not (same_numbers indices (up_to 200))) sample_indices) _ k2 in
    let (times, h4, k4) = >>=-eq-ok (integers "board_time_us" samples) _ k3 in
    let (_, h5, k5) = >>=-eq-ok (raise_if (not (increasing times)) sample_times) _ k4 in
    record {
      two_hundred = ground (arith, raise_if-eq-ok _ _ h1);
      indices =
          h2 ∙ ap ok (same_numbers-eq indices (up_to 200) (ground (arith, raise_if-eq-ok _ _ h3)));
      rising = (times, h4, increasing-IsRising times (ground (arith, raise_if-eq-ok _ _ h5)));
      no_fault = check_faults-All samples u k5;
    }
