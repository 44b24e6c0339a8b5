-- ===== src/Telemetry/Delivery.antt =====
-- What a delivery contract that passes says of the log and of its records.
use qos_extended_mros2_esp.Base.{
  ℕ, zero, suc, ◌%◌, ◌≡◌, refl, subst, String, Bool, false, ◌||◌, inl, inr, Option, none, some,
  List, [], ◌∷◌, any, arith, Bool-cases, if◌then◌else◌, string_eq, option_eq,
}
use qos_extended_mros2_esp.Base.Fields.{Fields, Holds, check_fields, check_fields-Holds}
use qos_extended_mros2_esp.Base.Int.{ℤ, pos, negsuc, int_eq}
use qos_extended_mros2_esp.Base.Result.{ok, >>=-eq-ok, raise_if, raise_if-eq-ok}
use qos_extended_mros2_esp.Telemetry.Record.{
  rate_not_divisor, text_mismatch, parse_key_value_record,
}
use qos_extended_mros2_esp.Telemetry.Contract.{
  ContractOptions, is_bad_rate, get_text, expected_compare_config, expected_compare_final,
  expected_bench_config, expected_bench_final, check_partial, observability_keys, has,
  check_observability, check_contract, records_with, single, only_two, validate_delivery_contract,
}
use qos_extended_mros2_esp.Telemetry.Observable.{
  IsPartial, check_partial-IsPartial, IsObservable, neither_has, check_observability-IsObservable,
}

pub record IsDelivery (options : ContractOptions) (compare_final bench_config bench_final : Fields)
    : Type 0 where
  pub compare_final_pairs :
      Holds compare_final (expected_compare_final options (get_text bench_config "system"))
  pub bench_config_pairs : Holds bench_config (expected_bench_config options)
  pub bench_final_pairs : Holds bench_final (expected_bench_final options)
  pub partial_delivery :
      options.require_full_delivery ≡ false
      → IsPartial options.expected_target_tx compare_final bench_final
  pub observable : IsObservable options.expected_target_tx compare_final bench_final

if-IsObservable :
    (target : ℤ) (compare_final bench_final : Fields) (u : Unit {0})
    → (if any (has compare_final) observability_keys || any (has bench_final) observability_keys
        then check_observability target compare_final bench_final
        else ok tt)
      ≡ ok u
    → IsObservable target compare_final bench_final
if-IsObservable target compare_final bench_final u h =
    elim (Bool-cases
      (any (has compare_final) observability_keys || any (has bench_final) observability_keys)) [
        | inl some_has ↦
            check_observability-IsObservable target compare_final bench_final u (rw some_has at h)
        | inr none_has ↦ inl (
            neither_has compare_final bench_final observability_keys (ground (arith, none_has))
              (ground (arith, none_has)))
      ]

if-IsPartial :
    (target : ℤ) (compare_final bench_final : Fields) (full : Bool) (u : Unit {0})
    → (if full then ok tt else check_partial target compare_final bench_final) ≡ ok u
    → full ≡ false
    → IsPartial target compare_final bench_final
if-IsPartial target compare_final bench_final full u h not_full =
    check_partial-IsPartial target compare_final bench_final u (rw not_full at h)

check_contract-IsDelivery :
    (options : ContractOptions)
    (compare_config compare_final bench_config bench_final result : Fields)
    → check_contract options compare_config compare_final bench_config bench_final ≡ ok result
    → (compare_final ≡ result)
      × Holds compare_config (expected_compare_config options (get_text bench_config "system"))
      × IsDelivery options compare_final bench_config bench_final
unfolding check_contract
check_contract-IsDelivery options compare_config compare_final bench_config bench_final result h =
    let system = get_text bench_config "system" in
    let (u1, h1, k1) =
      >>=-eq-ok (check_fields text_mismatch compare_config (expected_compare_config options system))
        _ h in
    let (u2, h2, k2) =
      >>=-eq-ok (check_fields text_mismatch compare_final (expected_compare_final options system)) _
        k1 in
    let (u3, h3, k3) =
      >>=-eq-ok (check_fields text_mismatch bench_config (expected_bench_config options)) _ k2 in
    let (u4, h4, k4) =
      >>=-eq-ok (check_fields text_mismatch bench_final (expected_bench_final options)) _ k3 in
    let (u5, h5, k5) =
      >>=-eq-ok
        (if options.require_full_delivery
          then ok tt
          else check_partial options.expected_target_tx compare_final bench_final)
        _ k4 in
    let (u6, h6, k6) =
      >>=-eq-ok
        (if any (has compare_final) observability_keys || any (has bench_final) observability_keys
          then check_observability options.expected_target_tx compare_final bench_final
          else ok tt)
        _ k5 in
    (
      ground (arith, k6),
      check_fields-Holds text_mismatch compare_config _ u1 h1,
      record {
        compare_final_pairs = check_fields-Holds text_mismatch compare_final _ u2 h2;
        bench_config_pairs = check_fields-Holds text_mismatch bench_config _ u3 h3;
        bench_final_pairs = check_fields-Holds text_mismatch bench_final _ u4 h4;
        partial_delivery =
            if-IsPartial options.expected_target_tx compare_final bench_final
              options.require_full_delivery u5 h5;
        observable = if-IsObservable options.expected_target_tx compare_final bench_final u6 h6;
      },
    )

rate_divides :
    (rate : ℤ) → is_bad_rate rate ≡ false → (n : ℕ) × (rate ≡ pos (suc n)) × (1000 % suc n ≡ 0)
unfolding is_bad_rate
rate_divides (pos zero) h = absurd (ground arith)
rate_divides (pos (suc n)) h = (n, refl, ground arith)
rate_divides (negsuc n) h = absurd (ground arith)

pub single-eq {ℓ} : {A : Type ℓ} (xs : List A) (x : A) → single xs ≡ some x → xs ≡ x ∷ []
single-eq [] x h = absurd (ground arith)
single-eq (y ∷ []) x h = ground arith
single-eq (y ∷ z ∷ xs) x h = absurd (ground arith)

only_two_lem :
    (a b : Option String) (lines : String × String)
    → only_two a b ≡ ok lines
    → (a ≡ some lines.0) × (b ≡ some lines.1)
unfolding only_two
only_two_lem (some a) (some b) lines h = ground arith
only_two_lem (some a) none lines h = absurd (ground arith)
only_two_lem none b lines h = absurd (ground arith)

-- A passing log names one line of each kind, and the records that they hold.
pub record IsContract (raw_lines : List String) (options : ContractOptions)
    (bench_config bench_final result : Fields) : Type 0 where
  pub config_line : String
  pub final_line : String
  pub config : Fields
  pub one_config : records_with "COMPARE_CONFIG " raw_lines ≡ ok (config_line ∷ [])
  pub one_final : records_with "COMPARE_FINAL " raw_lines ≡ ok (final_line ∷ [])
  pub config_is : parse_key_value_record config_line "COMPARE_CONFIG " ≡ ok config
  pub final_is : parse_key_value_record final_line "COMPARE_FINAL " ≡ ok result
  pub config_pairs : Holds config (expected_compare_config options (get_text bench_config "system"))
  pub rate : (n : ℕ) × (options.expected_rate_hz ≡ pos (suc n)) × (1000 % suc n ≡ 0)
  pub delivery : IsDelivery options result bench_config bench_final

-- A contract that passes has a positive rate that divides 1000, and the log has one line of
-- COMPARE_CONFIG and one of COMPARE_FINAL, of which the latter is returned. The four records hold
-- the values that are expected. Where less than the full delivery is allowed, the arrivals are at
-- most the target and all four counts of them agree. Where a record states how the delivery went,
-- both state it alike: arrivals and missing samples add up to the target, the runs of missing
-- samples are possible ones (none of them, or the longest times their number reaches the missing
-- samples), at most all arrivals are out of order, and the sum of the squared round-trip times is
-- at least what the sum of the times demands.
pub validate_delivery_contract-IsContract :
    (raw_lines : List String) (bench_config bench_final : Fields) (options : ContractOptions)
    (result : Fields)
    → validate_delivery_contract raw_lines bench_config bench_final options ≡ ok result
    → IsContract raw_lines options bench_config bench_final result
unfolding validate_delivery_contract
validate_delivery_contract-IsContract raw_lines bench_config bench_final options result h =
    let (_, h1, k1) =
      >>=-eq-ok (raise_if (is_bad_rate options.expected_rate_hz) rate_not_divisor) _ h in
    let (configs, h2, k2) = >>=-eq-ok (records_with "COMPARE_CONFIG " raw_lines) _ k1 in
    let (finals, h3, k3) = >>=-eq-ok (records_with "COMPARE_FINAL " raw_lines) _ k2 in
    let (lines, h4, k4) = >>=-eq-ok (only_two (single configs) (single finals)) _ k3 in
    let (config, h5, k5) = >>=-eq-ok (parse_key_value_record lines.0 "COMPARE_CONFIG ") _ k4 in
    let (final, h6, k6) = >>=-eq-ok (parse_key_value_record lines.1 "COMPARE_FINAL ") _ k5 in
    let (first, second) = only_two_lem (single configs) (single finals) lines h4 in
    let (same, config_holds, delivery) =
      check_contract-IsDelivery options config final bench_config bench_final result k6 in
    record {
      config_line = lines.0;
      final_line = lines.1;
      config = config;
      one_config =
          subst (λ xs. records_with "COMPARE_CONFIG " raw_lines ≡ ok xs)
            (single-eq configs lines.0 first) h2;
      one_final =
          subst (λ xs. records_with "COMPARE_FINAL " raw_lines ≡ ok xs)
            (single-eq finals lines.1 second) h3;
      config_is = h5;
      final_is = subst (λ r. parse_key_value_record lines.1 "COMPARE_FINAL " ≡ ok r) same h6;
      config_pairs = config_holds;
      rate = rate_divides options.expected_rate_hz (raise_if-eq-ok _ _ h1);
      delivery = subst (λ r. IsDelivery options r bench_config bench_final) same delivery;
    }
