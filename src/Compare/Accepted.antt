-- ===== src/Compare/Accepted.antt =====
-- The report of a run that is accepted.
use mathlib.Core.Option.{some-injective}
use qos_extended_mros2_esp.Base.{
  ◌≡◌, refl, ap, sym, ◌∙◌, subst, String, true, false, not, some, List, [], ◌∷◌, length, ◌==◌,
  contains, string_eq, option_eq, nat_eq, if◌then◌else◌, All, All-both, arith, Bool-cases, inl, inr,
}
use qos_extended_mros2_esp.Base.Int.{ℤ, pos, ◌≤ℤ◌, ltb_ℤ, int_eq}
use qos_extended_mros2_esp.Base.Dict.{values}
use qos_extended_mros2_esp.Base.Order.{
  sort_with, insert_with, sort_with-All, insert_with-All, length-sort_with,
}
use qos_extended_mros2_esp.Compare.Serial.{
  system_order, SerialError, Errors, when, integer, Rtts, ByType, Entry, last_entry,
}
use qos_extended_mros2_esp.Compare.Run.{
  FinalValues, final_values, final_errors, min_from, max_from, expected_min, expected_max, Report,
  report_of, parse_compare_serial, sequence_le, is_nil,
}
use qos_extended_mros2_esp.Compare.Laws.{
  IsSample, IsDistinct, joined-eq-nil, when-not-eq-nil, samples_from-IsValid,
}

≤ℤ_trans : (a b c : ℤ) → a ≤ℤ b → b ≤ℤ c → a ≤ℤ c
≤ℤ_trans a b c h k = omega arith

lesser_of :
    (x least : ℤ)
    → ((if ltb_ℤ x least then x else least) ≤ℤ least) × ((if ltb_ℤ x least then x else least) ≤ℤ x)
lesser_of x least = ground arith

greater_of :
    (x greatest : ℤ)
    → (greatest ≤ℤ (if ltb_ℤ greatest x then x else greatest))
      × (x ≤ℤ (if ltb_ℤ greatest x then x else greatest))
greater_of x greatest = ground arith

min_from-le :
    (least : ℤ) (xs : List ℤ) → (min_from least xs ≤ℤ least) × All (λ x. min_from least xs ≤ℤ x) xs
unfolding min_from
min_from-le least [] = (omega arith, tt)
min_from-le least (x ∷ xs) =
    let next = if ltb_ℤ x least then x else least in
    let (below, all) = min_from-le next xs in
    let (under, less) = lesser_of x least in
    (
      ≤ℤ_trans (min_from next xs) next least below under,
      (≤ℤ_trans (min_from next xs) next x below less, all),
    )

max_from-le :
    (greatest : ℤ) (xs : List ℤ)
    → (greatest ≤ℤ max_from greatest xs) × All (λ x. x ≤ℤ max_from greatest xs) xs
unfolding max_from
max_from-le greatest [] = (omega arith, tt)
max_from-le greatest (x ∷ xs) =
    let next = if ltb_ℤ greatest x then x else greatest in
    let (above, all) = max_from-le next xs in
    let (over, more) = greater_of x greatest in
    (
      ≤ℤ_trans greatest next (max_from next xs) over above,
      (≤ℤ_trans x next (max_from next xs) more above, all),
    )

expected_bounds : (xs : List ℤ) → All (λ x. (expected_min xs ≤ℤ x) × (x ≤ℤ expected_max xs)) xs
unfolding expected_min expected_max
expected_bounds [] = tt
expected_bounds (x ∷ xs) =
    let (below, low) = min_from-le x xs in
    let (above, high) = max_from-le x xs in ((below, above), All-both _ _ xs low high)

values-All : (P : ℤ → Type 0) (d : Rtts) → All P (values d) → All (λ (e : ℤ × ℤ). P e.1) d
values-All P [] h = tt
values-All P ((k, v) ∷ d) (p, h) = (p, values-All P d h)

insert_with-IsDistinct :
    (e : ℤ × ℤ) (es : List (ℤ × ℤ))
    → All (λ (f : ℤ × ℤ). (f.0 == e.0) ≡ false) es
    → IsDistinct es
    → IsDistinct (insert_with sequence_le e es)
unfolding insert_with
insert_with-IsDistinct e [] apart h = (tt, tt)
insert_with-IsDistinct e (f ∷ es) (differ, apart) (first, h) = elim (Bool-cases (sequence_le e f)) [
  | inl le ↦ rw le ((differ, apart), (first, h))
  | inr gt ↦ rw gt (
    insert_with-All sequence_le _ e es (ground (arith, differ)) first,
    insert_with-IsDistinct e es apart h,
  )
]

sort_with-IsDistinct : (es : List (ℤ × ℤ)) → IsDistinct es → IsDistinct (sort_with sequence_le es)
unfolding sort_with
sort_with-IsDistinct [] h = tt
sort_with-IsDistinct (e ∷ es) (apart, h) =
    insert_with-IsDistinct e (sort_with sequence_le es) (sort_with-All sequence_le _ es apart)
      (sort_with-IsDistinct es h)

-- What an accepted run has measured. Its final record states the number of answers and the least
-- and the greatest round trip.
pub record IsMeasured (r : Report) : Type 0 where
  pub no_errors : r.errors ≡ []
  pub sent : r.tx ≡ pos 40
  pub answered : r.rx ≡ r.samples
  pub counted : r.samples ≡ pos (length r.rtts_us)
  pub valid : All IsSample r.rtts_us
  pub distinct : IsDistinct r.rtts_us
  pub within :
      All
        (λ (e : ℤ × ℤ).
          ((integer r.final "min_us").0 ≤ℤ e.1) × (e.1 ≤ℤ (integer r.final "max_us").0))
        r.rtts_us

-- What the tests on the final record leave.
abbrev Agrees : FinalValues → Rtts → Type 0
Agrees v rtts =
    (v.tx ≡ pos 40)
    × (v.rx ≡ v.samples)
    × (v.samples ≡ pos (length rtts))
    × (v.min_us ≡ expected_min (values rtts))
    × (v.max_us ≡ expected_max (values rtts))

agrees_if : (a b : ℤ) (error : SerialError) → when (not (a == b)) error ≡ [] → a ≡ b
agrees_if a b error h = ground (arith, when-not-eq-nil (a == b) error h)

final_errors-Agrees :
    (v : FinalValues) (rtts : Rtts) (ready_ms : ℤ)
    → final_errors v rtts ready_ms ≡ []
    → Agrees v rtts
unfolding final_errors
final_errors-Agrees v rtts ready_ms h =
    let (sent, (_, (_, (_, (answered, (counted, (_, (least, (_, (greatest, _)))))))))) =
      joined-eq-nil _ h in
    (
      agrees_if v.tx (pos 40) _ sent,
      agrees_if v.rx v.samples _ answered,
      agrees_if v.samples (pos (length rtts)) _ counted,
      agrees_if v.min_us (expected_min (values rtts)) _ least,
      agrees_if v.max_us (expected_max (values rtts)) _ greatest,
    )

is_nil-eq : (es : Errors) → is_nil es ≡ true → es ≡ []
is_nil-eq [] h = refl
is_nil-eq (e ∷ es) h = absurd (ground (arith, h))

within_bounds :
    (v : FinalValues) (rtts : Rtts)
    → Agrees v rtts
    → All (λ (e : ℤ × ℤ). (v.min_us ≤ℤ e.1) × (e.1 ≤ℤ v.max_us)) rtts
within_bounds v rtts (_, _, _, least, greatest) =
    rw (least, greatest) (values-All _ rtts (expected_bounds (values rtts)))

report_of-IsMeasured :
    (system : String) (records : List Entry) (by_type : ByType)
    → (report_of system records by_type).accepted ≡ true
    → IsMeasured (report_of system records by_type)
unfolding report_of final_values
report_of-IsMeasured system records by_type h =
    let no_errors = is_nil-eq _ h in
    let (_, (_, (_, (_, (_, (_, (_, (_, (clean, (_, (_, (final, _)))))))))))) =
      joined-eq-nil _ no_errors in
    let (samples, distinct) = samples_from-IsValid _ [] _ clean (tt, tt) in
    let agrees = final_errors-Agrees _ _ _ final in
    record {
      no_errors = no_errors;
      sent = agrees.0;
      answered = agrees.1;
      counted = agrees.2 ∙ ap pos (sym (length-sort_with sequence_le _));
      valid = sort_with-All sequence_le IsSample _ samples;
      distinct = sort_with-IsDistinct _ distinct;
      within =
          sort_with-All sequence_le _ _
            (within_bounds (final_values (last_entry 0 "COMPARE_FINAL" by_type).1) _ agrees);
    }

-- A log that is accepted has no errors. Its run sent 40 messages; the samples it reports are as
-- many as the answers and as the collected round trips, which carry distinct numbers below 40,
-- last more than 0 and less than ten million microseconds, and lie between the least and the
-- greatest that the final record states.
pub parse_compare_serial-IsMeasured :
    (lines : List String) (system : String) (r : Report)
    → parse_compare_serial lines system ≡ some r
    → r.accepted ≡ true
    → IsMeasured r
unfolding parse_compare_serial
parse_compare_serial-IsMeasured lines system r h accepted =
    elim (Bool-cases (contains system_order system)) [
      | inl known ↦
          let same = some-injective _ _ (rw known at h) in
          subst IsMeasured same
            (report_of-IsMeasured system _ _ (ap (λ (x : Report). x.accepted) same ∙ accepted))
      | inr unknown ↦ absurd (ground (arith, rw unknown at h))
    ]
