-- ===== src/Telemetry/Missing.antt =====
-- What the numbers of a delivery that passes say.
use qos_extended_mros2_esp.Base.{
  ℕ, ◌+◌, ◌-◌, ◌*◌, ◌/◌, ◌≤◌, ◌<◌, ◌≡◌, ◌≢◌, ap, true, not, ◌||◌, ◌⊎◌, inl, inr, Bool-cases, arith,
  ◌==◌,
}
use qos_extended_mros2_esp.Base.Fields.{Fields}
use qos_extended_mros2_esp.Base.Int.{
  ℤ, pos, negsuc, ◌+ℤ◌, ◌-ℤ◌, ◌*ℤ◌, ◌≤ℤ◌, floor_div, leb_ℤ, ltb_ℤ, int_eq, int_laws, pos_part,
  neg_part,
}
use qos_extended_mros2_esp.Base.Result.{ok, >>=-eq-ok, raise_if, raise_if-eq-ok}
use qos_extended_mros2_esp.Telemetry.Record.{missing_count, inversions_range}
use qos_extended_mros2_esp.Telemetry.Contract.{
  Observed, check_missing, check_moments, check_observed,
}

under_next : (n d : ℕ) → 0 < d → n < (n / d + 1) * d
under_next n d h = grind arith

times_mono : (a b d : ℕ) → a ≤ b → a * d ≤ b * d
times_mono a b d h = grind arith

-- A quotient rounded up that is at most `x`.
ceil_bound : (m r x : ℕ) → 0 < r → (m + r - 1) / r ≤ x → m ≤ r * x
ceil_bound m r x p h =
    grind (arith, under_next (m + r - 1) r p, times_mono ((m + r - 1) / r + 1) (x + 1) r)

ceil_lem : (m r : ℕ) → 0 < r → floor_div (pos m +ℤ pos r -ℤ pos 1) (pos r) ≡ pos ((m + r - 1) / r)
unfolding ◌+ℤ◌ ◌-ℤ◌
ceil_lem m r h = ground arith

-- The same of integers.
ceil_bound_ℤ :
    (m r x : ℤ)
    → leb_ℤ (pos 1) r ≡ true
    → leb_ℤ r m ≡ true
    → leb_ℤ (floor_div (m +ℤ r -ℤ pos 1) r) x ≡ true
    → m ≤ℤ r *ℤ x
unfolding ◌*ℤ◌
ceil_bound_ℤ (pos m) (pos r) (pos x) p q h =
    let positive : 0 < r = ground arith in
    let rounded : (m + r - 1) / r ≤ x = ground (arith, rw (ceil_lem m r positive) at h) in
    ground (arith, ceil_bound m r x positive rounded)
ceil_bound_ℤ (pos m) (pos r) (negsuc x) p q h =
    let positive : 0 < r = ground arith in absurd (ground (arith, rw (ceil_lem m r positive) at h))
ceil_bound_ℤ (negsuc m) (pos r) x p q h = absurd (ground arith)
ceil_bound_ℤ m (negsuc r) x p q h = absurd (ground arith)

-- Lost samples come in runs: none is lost, or the runs are at least one and at most the lost
-- samples, and the longest has at most all of them and at least their share.
abbrev pub IsRuns : ℤ → ℤ → ℤ → Type 0
IsRuns missing runs longest =
    ((missing ≡ pos 0) × (runs ≡ pos 0) × (longest ≡ pos 0))
    ⊎ ((pos 1 ≤ℤ runs) × (runs ≤ℤ missing) × (longest ≤ℤ missing) × (missing ≤ℤ runs *ℤ longest))

check_missing-IsRuns :
    (o : Observed) (u : Unit {0})
    → check_missing o ≡ ok u
    → IsRuns o.missing o.missing_runs o.max_missing_run
unfolding check_missing
check_missing-IsRuns o u h = elim (Bool-cases (o.missing == pos 0)) [
  | inl zero_missed ↦
      let test = raise_if-eq-ok _ _ (rw zero_missed at h) in
      inl (ground (arith, zero_missed), ground (arith, test), ground (arith, test))
  | inr missed ↦
      let test = raise_if-eq-ok _ _ (rw missed at h) in
      inr (
        ground (arith, test),
        ground (arith, test),
        ground (arith, test),
        ceil_bound_ℤ o.missing o.missing_runs o.max_missing_run (ground (arith, test))
            (ground (arith, test)) (ground (arith, test)),
      )
]

-- The numbers of a delivery of `target` messages: those that arrived and those that are missing
-- add up to the target, the missing ones come in runs, no more arrivals are out of order than
-- there are arrivals, and the sums of the round-trip times are possible ones.
pub record IsObserved (target : ℤ) (o : Observed) : Type 0 where
  pub all_accounted : target ≡ o.delivered +ℤ o.missing
  pub runs : IsRuns o.missing o.missing_runs o.max_missing_run
  pub inversions_bounds : (pos 0 ≤ℤ o.inversions) × (o.inversions ≤ℤ o.delivered)
  pub moments_none : o.delivered ≡ pos 0 → (o.sum_us ≡ pos 0) × (o.sum_sq_us2 ≡ pos 0)
  pub moments_possible : o.delivered ≢ pos 0 → o.sum_us *ℤ o.sum_us ≤ℤ o.sum_sq_us2 *ℤ o.delivered

check_moments-none :
    (fields : Fields) (o : Observed) (u : Unit {0})
    → check_moments fields o ≡ ok u
    → o.delivered ≡ pos 0
    → (o.sum_us ≡ pos 0) × (o.sum_sq_us2 ≡ pos 0)
unfolding check_moments
check_moments-none fields o u h none_there = ground arith

check_moments_possible :
    (fields : Fields) (o : Observed) (u : Unit {0})
    → check_moments fields o ≡ ok u
    → o.delivered ≢ pos 0
    → o.sum_us *ℤ o.sum_us ≤ℤ o.sum_sq_us2 *ℤ o.delivered
unfolding check_moments
check_moments_possible fields o u h some_there = ground arith

add_back : (target d m : ℤ) → m ≡ target -ℤ d → target ≡ d +ℤ m
add_back target d m h = omega (int_laws, ap pos_part h, ap neg_part h)

pub check_observed-IsObserved :
    (target : ℤ) (fields : Fields) (o : Observed) (u : Unit {0})
    → check_observed target fields o ≡ ok u
    → IsObserved target o
unfolding check_observed
check_observed-IsObserved target fields o u h =
    let (_, h1, k1) =
      >>=-eq-ok (raise_if (not (o.missing == target -ℤ o.delivered)) missing_count) _ h in
    let (_, h2, k2) =
      >>=-eq-ok
        (raise_if (ltb_ℤ o.inversions (pos 0) || ltb_ℤ o.delivered o.inversions) inversions_range) _
        k1 in
    let (u3, h3, h4) = >>=-eq-ok (check_missing o) _ k2 in
    let sum : o.missing ≡ target -ℤ o.delivered = ground (arith, raise_if-eq-ok _ _ h1) in
    let range = raise_if-eq-ok _ _ h2 in
    record {
      all_accounted = add_back target o.delivered o.missing sum;
      runs = check_missing-IsRuns o u3 h3;
      inversions_bounds = (ground (arith, range), ground (arith, range));
      moments_none = check_moments-none fields o u h4;
      moments_possible = check_moments_possible fields o u h4;
    }
