-- ===== src/Telemetry/Observable.antt =====
-- What the counts of a delivery that passes say, and the records that state how it went.
use qos_extended_mros2_esp.Base.{
  ◌≡◌, ◌≢◌, subst, String, false, ◌||◌, ◌⊎◌, inr, none, List, [], ◌∷◌, All, any, arith, string_eq,
  option_eq,
}
use qos_extended_mros2_esp.Base.Dict.{lookup}
use qos_extended_mros2_esp.Base.Fields.{Fields}
use qos_extended_mros2_esp.Base.Int.{ℤ, pos, ◌≤ℤ◌, ltb_ℤ, int_eq}
use qos_extended_mros2_esp.Base.Result.{ok, >>=-eq-ok, raise_if, raise_if-eq-ok}
use qos_extended_mros2_esp.Telemetry.Record.{
  delivered_range, observability_incomplete, observability_differs, integer,
}
use qos_extended_mros2_esp.Telemetry.Contract.{
  check_delivered, check_partial, observability_keys, has, lacks, unequal, Observed, read_observed,
  check_observability,
}
use qos_extended_mros2_esp.Telemetry.Missing.{IsObserved, check_observed-IsObserved}

-- Fewer messages than the target: all three other counts are the count of the arrivals.
abbrev pub IsPartial : ℤ → Fields → Fields → Type 0
IsPartial target compare_final bench_final =
    (delivered : ℤ) × (integer compare_final "rx" ≡ ok delivered)
    × (pos 0 ≤ℤ delivered)
    × (delivered ≤ℤ target)
    × (integer compare_final "samples" ≡ ok delivered)
    × (integer bench_final "rx" ≡ ok delivered)
    × (integer bench_final "rtt_samples" ≡ ok delivered)

check_delivered_lem :
    (delivered : ℤ) (fields : Fields) (key : String) (u : Unit {0})
    → check_delivered delivered fields key ≡ ok u
    → integer fields key ≡ ok delivered
unfolding check_delivered
check_delivered_lem delivered fields key u h =
    let (n, read, test) = >>=-eq-ok (integer fields key) _ h in
    subst (λ k. integer fields key ≡ ok k) (ground (arith, raise_if-eq-ok _ _ test)) read

pub check_partial-IsPartial :
    (target : ℤ) (compare_final bench_final : Fields) (u : Unit {0})
    → check_partial target compare_final bench_final ≡ ok u
    → IsPartial target compare_final bench_final
unfolding check_partial
check_partial-IsPartial target compare_final bench_final u h =
    let (d, read, k1) = >>=-eq-ok (integer compare_final "rx") _ h in
    let (_, range, k2) =
      >>=-eq-ok (raise_if (ltb_ℤ d (pos 0) || ltb_ℤ target d) delivered_range) _ k1 in
    let (u3, samples, k3) = >>=-eq-ok (check_delivered d compare_final "samples") _ k2 in
    let (u4, rx, rtt) = >>=-eq-ok (check_delivered d bench_final "rx") _ k3 in
    (
      d,
      read,
      ground (arith, raise_if-eq-ok _ _ range),
      ground (arith, raise_if-eq-ok _ _ range),
      check_delivered_lem d compare_final "samples" u3 samples,
      check_delivered_lem d bench_final "rx" u4 rx,
      check_delivered_lem d bench_final "rtt_samples" u rtt,
    )

-- Neither record states how the delivery went, or both do, alike and with possible numbers.
abbrev pub IsObservable : ℤ → Fields → Fields → Type 0
IsObservable target compare_final bench_final =
    All (λ key. (lookup key compare_final ≡ none) × (lookup key bench_final ≡ none))
      observability_keys
    ⊎ (All
          (λ key.
            (lookup key compare_final ≢ none) × (lookup key bench_final ≡ lookup key compare_final))
          observability_keys
        × ((o : Observed) × (read_observed compare_final ≡ ok o) × IsObserved target o))

pub neither_has :
    (a b : Fields) (keys : List String)
    → any (has a) keys ≡ false
    → any (has b) keys ≡ false
    → All (λ key. (lookup key a ≡ none) × (lookup key b ≡ none)) keys
neither_has a b [] p q = tt
neither_has a b (key ∷ keys) p q =
    ((ground arith, ground arith), neither_has a b keys (ground arith) (ground arith))

both_have :
    (a b : Fields) (keys : List String)
    → any (lacks a) keys ≡ false
    → any (unequal a b) keys ≡ false
    → All (λ key. (lookup key a ≢ none) × (lookup key b ≡ lookup key a)) keys
both_have a b [] p q = tt
both_have a b (key ∷ keys) p q =
    ((ground arith, ground arith), both_have a b keys (ground arith) (ground arith))

pub check_observability-IsObservable :
    (target : ℤ) (compare_final bench_final : Fields) (u : Unit {0})
    → check_observability target compare_final bench_final ≡ ok u
    → IsObservable target compare_final bench_final
unfolding check_observability
check_observability-IsObservable target compare_final bench_final u h =
    let (_, there, k1) =
      >>=-eq-ok
        (raise_if
          (any (lacks compare_final) observability_keys
            || any (lacks bench_final) observability_keys)
          observability_incomplete)
        _ h in
    let (_, alike, k2) =
      >>=-eq-ok
        (raise_if (any (unequal compare_final bench_final) observability_keys)
          observability_differs)
        _ k1 in
    let (o, read, k3) = >>=-eq-ok (read_observed compare_final) _ k2 in
    inr (
      both_have compare_final bench_final observability_keys
          (ground (arith, raise_if-eq-ok _ _ there)) (raise_if-eq-ok _ _ alike),
      (o, read, check_observed-IsObserved target compare_final o u k3),
    )
