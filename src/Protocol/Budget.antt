-- ===== src/Protocol/Budget.antt =====
-- What a performance document that passes has.
use qos_extended_mros2_esp.Base.{
  ℕ, ◌≡◌, sym, ap, ◌∙◌, subst, String, not, some, List, map, flat_map, All, arith, ◌==◌, string_eq,
  option_eq, Option-cases, inl, inr,
}
use qos_extended_mros2_esp.Base.Dict.{keys}
use qos_extended_mros2_esp.Base.Int.{ℤ, pos, ◌+ℤ◌, ◌*ℤ◌, ltb_ℤ, int_eq}
use qos_extended_mros2_esp.Base.Result.{
  ok, ◌>>=◌, ◌>>◌, raise_if, >>=-eq-ok, raise_if-eq-ok, ok_injective,
}
use qos_extended_mros2_esp.Protocol.{
  Performance, all_distinct, family_name, expected_families, check_families, same_set, check_totals,
  validate_performance, performance_status, bad_runs_per_cell, visits_mismatch, family_set,
  ids_not_unique, cell_total, run_total, combined_total,
}
use qos_extended_mros2_esp.Protocol.Families.{
  IsApart, AreIds, cells_of, IsFamily, IsExpected, subset-IsExpected, all_distinct-IsApart,
  check_families-eq-ok,
}

-- The document states a draft of 51 cells, each with the runs of its visits.
abbrev pub IsBudget : Performance → ℤ × ℤ → Type 0
IsBudget draft (cells, runs) =
    (draft.status ≡ some "draft_no_data")
    × (cells ≡ pos 51)
    × (runs ≡ pos 51 *ℤ (draft.visits_per_family *ℤ draft.accepted_runs_per_cell_per_visit))
    × (draft.accepted_runs_per_cell
        ≡ some (draft.visits_per_family *ℤ draft.accepted_runs_per_cell_per_visit))
    × (draft.expected_new_cells ≡ some cells)
    × (draft.expected_new_accepted_runs ≡ some runs)
    × (draft.expected_combined_new_runs_after_h2b ≡ some (runs +ℤ pos 1740))

-- The identifiers of all cells, no two alike.
abbrev pub AreNamed : Performance → Type 0
AreNamed draft =
    (ids : List String) × AreIds (flat_map (cells_of draft.new_families) expected_families) ids
    × IsApart ids

check_totals-eq-ok :
    (draft : Performance) (n : ℤ) (found : ℕ × List String) (result : ℤ × ℤ)
    → draft.status ≡ some "draft_no_data"
    → draft.accepted_runs_per_cell ≡ some n
    → draft.visits_per_family *ℤ draft.accepted_runs_per_cell_per_visit ≡ n
    → found.0 ≡ 51
    → check_totals draft (pos found.0) (pos found.0 *ℤ n) ≡ ok result
    → IsBudget draft result
unfolding check_totals
check_totals-eq-ok draft n (count, ids) result status per_cell visits size h =
    let cells = pos count in
    let runs = pos count *ℤ n in
    let (_, first, h1) =
      >>=-eq-ok (raise_if (not (draft.expected_new_cells == some cells)) cell_total) _ h in
    let (_, second, h2) =
      >>=-eq-ok (raise_if (not (draft.expected_new_accepted_runs == some runs)) run_total) _ h1 in
    let (_, third, h3) =
      >>=-eq-ok
        (raise_if (not (draft.expected_combined_new_runs_after_h2b == some (runs +ℤ pos 1740)))
          combined_total)
        _ h2 in
    subst (IsBudget draft) (ok_injective h3) (
      status,
      ap pos size,
      ap (λ k. pos k *ℤ n) size ∙ ap (λ z. pos 51 *ℤ z) (sym visits),
      per_cell ∙ ap some (sym visits),
      ground (arith, raise_if-eq-ok _ cell_total first),
      ground (arith, raise_if-eq-ok _ run_total second),
      ground (arith, raise_if-eq-ok _ combined_total third),
    )

-- A performance document that passes is a draft of 51 cells in the six families that are expected,
-- and in no other, with 9, 8, 9, 8, 8 and 9 of them, with an identifier for each, no two alike. The runs are 51 times those of a cell,
-- which are the visits times the runs of a visit, and the document states these totals, and the
-- runs with the 1740 of the H2B study. In each family but durability there is one anchor, every
-- corner differs from it in two factors or more, and for each of these there is a cell, no corner,
-- that differs from the anchor in that factor alone and has it from the corner.
pub validate_performance-IsBudget :
    (draft : Performance) (result : ℤ × ℤ)
    → validate_performance draft ≡ ok result
    → IsBudget draft result
      × All (IsFamily draft.new_families) expected_families
      × All IsExpected (keys draft.new_families)
      × AreNamed draft
unfolding validate_performance check_totals
validate_performance-IsBudget draft result h =
    let other = not (draft.status == some "draft_no_data") in
    let (_, status, h1) = >>=-eq-ok (raise_if other performance_status) _ h in
    elim (Option-cases draft.accepted_runs_per_cell) [
      | inl missing ↦ absurd (ground (arith, h1, missing))
      | inr (n, per_cell) ↦
          let visited = draft.visits_per_family *ℤ draft.accepted_runs_per_cell_per_visit in
          let families = draft.new_families in
          let different = not (same_set (keys families) (map family_name expected_families)) in
          let bounded : (raise_if (not (ltb_ℤ (pos 0) n)) bad_runs_per_cell
                >> (raise_if (not (visited == n)) visits_mismatch
                    >> (raise_if different family_set
                        >> (check_families families expected_families >>= λ found.
                            raise_if (not (all_distinct found.1)) ids_not_unique
                            >> check_totals draft (pos found.0) (pos found.0 *ℤ n)))))
              ≡ ok result =
            rw per_cell at h1 in
          let (_, _, h2) =
            >>=-eq-ok (raise_if (not (ltb_ℤ (pos 0) n)) bad_runs_per_cell) _ bounded in
          let (_, visits, h3) = >>=-eq-ok (raise_if (not (visited == n)) visits_mismatch) _ h2 in
          let (_, expected, h4) = >>=-eq-ok (raise_if different family_set) _ h3 in
          let (found, read, h5) = >>=-eq-ok (check_families families expected_families) _ h4 in
          let (_, apart, h6) =
            >>=-eq-ok (raise_if (not (all_distinct found.1)) ids_not_unique) _ h5 in
          let (all, named, count) = check_families-eq-ok families expected_families found read in
          (
            check_totals-eq-ok draft n found result
                (ground (arith, raise_if-eq-ok other performance_status status)) per_cell
                (ground (arith, raise_if-eq-ok (not (visited == n)) visits_mismatch visits)) count
                h6,
            all,
            subset-IsExpected (keys families)
                (ground (arith, raise_if-eq-ok different family_set expected)),
            (
              found.1,
              named,
              all_distinct-IsApart found.1 (
                  ground (arith, raise_if-eq-ok (not (all_distinct found.1)) ids_not_unique apart)),
            ),
          )
    ]
