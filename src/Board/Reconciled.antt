-- ===== src/Board/Reconciled.antt =====
-- Why the tests of a kind in `validate_log` and its test on the attempts agree.
use qos_extended_mros2_esp.Base.{
  ◌≡◌, refl, String, Bool, true, false, not, ◌||◌, Option, none, some, List, [], ◌∷◌, contains,
  if◌then◌else◌, string_eq, option_eq, ◌==◌, arith, inl, inr, Bool-cases, ap,
}
use qos_extended_mros2_esp.Base.Int.{ℤ, pos, ◌+ℤ◌, int_eq, int_laws}
use qos_extended_mros2_esp.Base.Text.{strip_prefix}
use qos_extended_mros2_esp.Board.Marker.{Fields, BoardError, Errors, when, joined}
use qos_extended_mros2_esp.Board.Cases.{
  Counters, value, observed, same_counters, expected_counters, differs, resource_case, history_case,
  durability_case, deadline_case, lifespan_case, liveliness_case,
}
use qos_extended_mros2_esp.Board.Log.{reconciles, or_case, case_of}
use qos_extended_mros2_esp.Board.Counted.{
  counted_kinds, fixes_attempts, Counts, Reconciles, reconciles_if, all_branches, counted_kind,
  same_counters-reconciles,
}

-- A branch of a chain of tests passes, or the rest of the chain does.
on_branch :
    {G : Type 0} (test : Bool) (now later : Option Errors)
    → (test ≡ true → now ≡ some [] → G)
    → (later ≡ some [] → G)
    → (if test then now else later) ≡ some []
    → G
on_branch true now later f g h = f refl h
on_branch false now later f g h = g h

on_case :
    {G : Type 0} (first later : Option Errors)
    → (first ≡ some [] → G)
    → (later ≡ some [] → G)
    → or_case first later ≡ some []
    → G
on_case none later f g h = g h
on_case (some errors) later f g h = f h

passed :
    (wrong other : Bool) (error : BoardError)
    → some (when (wrong || other) error) ≡ some []
    → wrong ≡ false
unfolding when
passed wrong other error h = ground (arith, h)

passed_alone :
    (wrong : Bool) (error : BoardError) → some (when wrong error) ≡ some [] → wrong ≡ false
unfolding when
passed_alone wrong error h = ground (arith, h)

left_false : (a b : Bool) → (a || b) ≡ false → a ≡ false
left_false a b h = ground (arith, h)

passed_first :
    (wrong other : Bool) (error : BoardError) (rest : List Errors)
    → some (joined (when (wrong || other) error ∷ rest)) ≡ some []
    → wrong ≡ false
unfolding when joined
passed_first wrong other error rest h = ground (arith, h)

one_attempt : (a b c d : ℤ) → a ≡ pos 1 → b ≡ pos 1 → c ≡ pos 0 → d ≡ pos 0 → a ≡ b +ℤ c +ℤ d
one_attempt a b c d one taken none_rejected none_failed =
    rw (one, taken, none_rejected, none_failed) (omega int_laws)

module _ (kind : String) (limit capacity : ℤ) (config final : Fields) where
  compared :
      (expected : Option Counters)
      → Counts expected
      → Reconciles expected
      → elim expected [ none ↦ false | some c ↦ not (same_counters (observed final) c) ] ≡ false
      → reconciles (observed final) ≡ true
  unfolding Counts Reconciles
  compared none counts fits h = absurd counts
  compared (some c) counts fits h =
      same_counters-reconciles (observed final) c (ground (arith, h)) fits

  counted :
      (name : String) {now later : Option Errors}
      → contains counted_kinds name ≡ true
      → (now ≡ some [] → differs kind limit capacity final ≡ false)
      → (later ≡ some [] → reconciles (observed final) ≡ true)
      → (if kind == name then now else later) ≡ some []
      → reconciles (observed final) ≡ true
  unfolding differs
  counted name known same later =
      on_branch (kind == name) _ _
        (λ e h.
          compared (expected_counters kind limit capacity final)
            (counted_kind kind limit capacity final (ground (arith, known, e)))
            (all_branches kind limit capacity final) (same h))
        later

  resource_case-reconciles :
      resource_case kind limit capacity final ≡ some [] → reconciles (observed final) ≡ true
  unfolding resource_case string_eq
  resource_case-reconciles = counted "resource_sample_bound" refl (passed_alone _ _) (
      counted "resource_sample_reject" refl (passed_alone _ _) (
        counted "resource_byte_bound" refl (passed _ _ _) (
          counted "resource_alloc_fail" refl (passed _ _ _) (
            counted "resource_recovery" refl (λ h. left_false _ _ (passed _ _ _ h))
              (counted "resource_no_corruption" refl (passed_alone _ _)
                (λ h. absurd (ground (arith, h))))))))

  durability_order :
      {later : Option Errors} (replay : Bool) (error : BoardError) (rest : List Errors)
      → (later ≡ some [] → reconciles (observed final) ≡ true)
      → (if kind == "durability_tl_order" || kind == "durability_tl_epoch"
          then some (joined (when (differs kind limit capacity final || replay) error ∷ rest))
          else later)
        ≡ some []
      → reconciles (observed final) ≡ true
  durability_order replay error rest later =
      on_branch (kind == "durability_tl_order" || kind == "durability_tl_epoch") _ _
        (λ e h.
          unfold differs in
          compared (expected_counters kind limit capacity final)
            (counted_kind kind limit capacity final (ground (arith, e)))
            (all_branches kind limit capacity final) (passed_first _ _ _ _ h))
        later

  module _ (fixes : fixes_attempts kind ≡ true) where
    not_fixed : (name : String) → fixes_attempts name ≡ false → (kind == name) ≡ true → ⊥
    not_fixed name misses same =
        let equal : kind ≡ name = ground (arith, same) in
        absurd (ground (arith, ap fixes_attempts equal, fixes, misses))

    free :
        (name : String) (now : Option Errors) {later : Option Errors}
        → fixes_attempts name ≡ false
        → (later ≡ some [] → reconciles (observed final) ≡ true)
        → (if kind == name then now else later) ≡ some []
        → reconciles (observed final) ≡ true
    free name now misses later =
        on_branch (kind == name) _ _ (λ same h. absurd (not_fixed name misses same)) later

    free_two :
        (name other : String) (now : Option Errors) {later : Option Errors}
        → fixes_attempts name ≡ false
        → fixes_attempts other ≡ false
        → (later ≡ some [] → reconciles (observed final) ≡ true)
        → (if kind == name || kind == other then now else later) ≡ some []
        → reconciles (observed final) ≡ true
    free_two name other now misses neither later =
        on_branch (kind == name || kind == other) _ _
          (λ same h. absurd (elim (Bool-cases (kind == name)) [
            | inl this ↦ not_fixed name misses this
            | inr that ↦ not_fixed other neither (ground (arith, same, that))
          ]))
          later

    history_case-reconciles :
        history_case kind limit capacity final ≡ some [] → reconciles (observed final) ≡ true
    unfolding history_case string_eq strip_prefix
    history_case-reconciles = counted "history_keep_last_order" refl (passed _ _ _) (
        counted "history_keep_all_bound" refl (passed_alone _ _) (
          free "history_duplicate_once" _ refl (
            free "history_gap_safe" _ refl (
              free "history_epoch_reset" _ refl (
                counted "history_pbuf_release" refl
                  (λ h. left_false _ _ (left_false _ _ (left_false _ _ (passed _ _ _ h))))
                  (λ h. absurd (ground (arith, h))))))))

    durability_case-reconciles :
        durability_case kind limit capacity config final ≡ some []
        → reconciles (observed final) ≡ true
    unfolding durability_case string_eq
    durability_case-reconciles = counted "durability_volatile_late" refl (passed _ _ _) (
        durability_order _ _ _ (
          counted "durability_tl_depth" refl (passed _ _ _) (
            counted "durability_frag_capability" refl (λ h. left_false _ _ (passed _ _ _ h))
              (λ h. absurd (ground (arith, h))))))

    deadline_case-reconciles :
        deadline_case kind final ≡ some [] → reconciles (observed final) ≡ true
    unfolding deadline_case string_eq strip_prefix
    deadline_case-reconciles = free "deadline_disabled" _ refl (
        free_two "deadline_boundary" "deadline_polling" _ refl refl (
          free "deadline_repeated" _ refl
            (free "deadline_recovery" _ refl (λ h. absurd (ground (arith, h))))))

    lifespan_case-reconciles :
        lifespan_case kind final ≡ some [] → reconciles (observed final) ≡ true
    unfolding lifespan_case when joined observed
    lifespan_case-reconciles h =
        let one : value final "attempts" ≡ pos 1 = ground (arith, h) in
        let taken : value final "accepted" ≡ pos 1 = ground (arith, h) in
        let none_rejected : value final "rejected" ≡ pos 0 = ground (arith, h) in
        let none_failed : value final "allocation_failures" ≡ pos 0 = ground (arith, h) in
        reconciles_if _ _ _ _ _ (one_attempt _ _ _ _ one taken none_rejected none_failed)

    liveliness_case-reconciles :
        liveliness_case kind final ≡ some [] → reconciles (observed final) ≡ true
    unfolding liveliness_case string_eq strip_prefix
    liveliness_case-reconciles = free "liveliness_startup" _ refl (
        free_two "liveliness_loss_once" "liveliness_no_duplicate" _ refl refl (
          free "liveliness_recovery_once" _ refl
            (free "liveliness_infinite" _ refl (λ h. absurd (ground (arith, h))))))

-- The tests of a kind that fix the attempts, which are those of fourteen kinds that compare the
-- counters with expected ones and of every lifespan kind, agree with the test on the attempts: a
-- final record that passes the tests of such a kind accounts for its attempts as the accepted, the
-- rejected and the failed ones.
pub case_of-reconciles :
    (kind : String) (limit : ℤ) (config final : Fields)
    → fixes_attempts kind ≡ true
    → case_of kind limit config final ≡ some []
    → reconciles (observed final) ≡ true
unfolding case_of
case_of-reconciles kind limit config final fixes =
    let capacity = value config "history_capacity" in
    on_case _ _ (resource_case-reconciles kind limit capacity config final) (
      on_case _ _ (history_case-reconciles kind limit capacity config final fixes) (
        on_case _ _ (durability_case-reconciles kind limit capacity config final fixes) (
          on_case _ _ (deadline_case-reconciles kind limit capacity config final fixes) (
            on_case _ _ (lifespan_case-reconciles kind limit capacity config final fixes)
              (liveliness_case-reconciles kind limit capacity config final fixes)))))
