-- ===== src/Board/Laws.antt =====
-- What a board log that passes states.
use qos_extended_mros2_esp.Base.{
  ◌≡◌, refl, String, Bool, true, false, not, some, List, [], ◌∷◌, length, All, append-eq-nil,
  string_eq, option_eq, nat_eq, ◌==◌, arith, Eq,
}
use qos_extended_mros2_esp.Base.Int.{ℤ, pos, ◌+ℤ◌, ◌*ℤ◌, int_eq}
use qos_extended_mros2_esp.Base.Dict.{lookup}
use qos_extended_mros2_esp.Board.Marker.{
  Fields, BoardError, Errors, when, joined, markers, post_final,
}
use qos_extended_mros2_esp.Board.Cases.{value, observed}
use qos_extended_mros2_esp.Board.Log.{
  only, header_errors, reconciles, accounting_errors, case_of, case_errors, marker_errors,
  validate_log,
}

joined-eq-nil : (es : List Errors) → joined es ≡ [] → All (λ (e : Errors). e ≡ []) es
unfolding joined
joined-eq-nil [] h = tt
joined-eq-nil (e ∷ es) h =
    let (this, rest) = append-eq-nil e (joined es) h in (this, joined-eq-nil es rest)

passed_if : (test : Bool) (error : BoardError) → when (not test) error ≡ [] → test ≡ true
unfolding when
passed_if test error h = ground (arith, h)

not_failed : (test : Bool) (error : BoardError) → when test error ≡ [] → test ≡ false
unfolding when
not_failed test error h = ground (arith, h)

-- The one config and the one final record of a log that passes, and what they account for.
pub record IsAccounted (lines : List String) (case_id kind : String) (limit : ℤ) : Type 0 where
  pub config : Fields
  pub final : Fields
  pub one_config : markers "MECH_BOARD_CONFIG" lines ≡ config ∷ []
  pub one_final : markers "MECH_BOARD_FINAL" lines ≡ final ∷ []
  pub last_marker : post_final lines ≡ 0
  pub same_case : lookup "case_id" final ≡ some case_id
  pub same_kind : lookup "kind" final ≡ some kind
  pub status : lookup "status" final ≡ some "PASS"
  pub attempts :
      value final "attempts"
      ≡ value final "accepted" +ℤ value final "rejected" +ℤ value final "allocation_failures"
  pub bytes :
      value final "history_bytes" ≡ value final "history_count" *ℤ value final "sample_bytes"
  pub intact : value final "heap_integrity" ≡ pos 1
  pub case_passes : case_of kind limit config final ≡ some []

only_one : (found : List Fields) → length found ≡ 1 → found ≡ only found ∷ []
only_one [] h = absurd (omega arith)
only_one (fields ∷ []) h = refl
only_one (fields ∷ other ∷ more) h = absurd (omega arith)

same_if {ℓ} :
    {A : Type ℓ} ⦃eq : Eq A⦄ (a b : A) (error : BoardError) → when (not (a == b)) error ≡ [] → a ≡ b
same_if a b error h = ground (arith, passed_if (a == b) error h)

case_errors-eq-nil :
    (kind : String) (limit : ℤ) (config final : Fields)
    → case_errors kind limit config final ≡ []
    → case_of kind limit config final ≡ some []
unfolding case_errors
case_errors-eq-nil kind limit config final h = ground arith

marker_errors-eq-nil :
    (lines : List String)
    → marker_errors lines ≡ []
    → (length (markers "MECH_BOARD_CONFIG" lines) ≡ 1)
      × (length (markers "MECH_BOARD_FINAL" lines) ≡ 1)
      × (post_final lines ≡ 0)
unfolding marker_errors when
marker_errors-eq-nil lines h =
    let (configs, (finals, _)) = joined-eq-nil _ h in
    (ground (arith, configs), ground (arith, finals), ground (arith, finals))

-- A log that passes has exactly one config record and one final record, with no machine marker
-- behind the latter. The final record names the case and the kind and states that it passed; the
-- attempts are the accepted, the rejected and the failed ones, the history's bytes are those of
-- its samples, the heap is intact, and the tests of the kind, which is a supported one, pass.
pub validate_log-IsAccounted :
    (lines : List String) (case_id kind : String) (limit : ℤ)
    → validate_log lines case_id kind limit ≡ []
    → IsAccounted lines case_id kind limit
unfolding validate_log header_errors accounting_errors reconciles observed
validate_log-IsAccounted lines case_id kind limit h =
    let config = only (markers "MECH_BOARD_CONFIG" lines) in
    let final = only (markers "MECH_BOARD_FINAL" lines) in
    let (found, (header, (_, (_, (accounts, (kind_passes, _)))))) = joined-eq-nil _ h in
    let (one, last, behind) = marker_errors-eq-nil lines found in
    let (_, (case_final, (_, (kind_final, (_, (status, _)))))) = joined-eq-nil _ header in
    let (_, (_, (attempts, (bytes, (_, (heap, _)))))) = joined-eq-nil _ accounts in
    record {
      config = config;
      final = final;
      one_config = only_one _ one;
      one_final = only_one _ last;
      last_marker = behind;
      same_case = same_if (lookup "case_id" final) (some case_id) _ case_final;
      same_kind = same_if (lookup "kind" final) (some kind) _ kind_final;
      status = same_if (lookup "status" final) (some "PASS") _ status;
      attempts = same_if (value final "attempts") _ _ attempts;
      bytes = ground (arith, not_failed _ _ bytes);
      intact = same_if (value final "heap_integrity") (pos 1) _ heap;
      case_passes = case_errors-eq-nil kind limit config final kind_passes;
    }
