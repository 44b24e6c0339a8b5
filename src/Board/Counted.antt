-- ===== src/Board/Counted.antt =====
-- The counters that the tests of a kind in `validate_log` expect, and the test on the attempts.
use qos_extended_mros2_esp.Base.{
  ◌≡◌, String, Bool, true, false, ◌||◌, Option, none, some, List, [], ◌∷◌, contains, if◌then◌else◌,
  string_eq, option_eq, ◌==◌, arith,
}
use qos_extended_mros2_esp.Base.Int.{ℤ, pos, ◌+ℤ◌, int_eq, int_laws}
use qos_extended_mros2_esp.Base.Text.{starts_with}
use qos_extended_mros2_esp.Board.Marker.{Fields}
use qos_extended_mros2_esp.Board.Cases.{Counters, same_attempts, same_counters, expected_counters}
use qos_extended_mros2_esp.Board.Log.{reconciles}

pub reconciles_if :
    (a b c d e : ℤ)
    → a ≡ b +ℤ c +ℤ d
    → reconciles (record {
      attempts = a;
      accepted = b;
      rejected = c;
      allocation_failures = d;
      history_count = e;
    })
      ≡ true
unfolding reconciles
reconciles_if a b c d e h = ground (arith, h)

unfoldable pub Reconciles : Option Counters → Type 0
Reconciles none = Unit
Reconciles (some c) = reconciles c ≡ true

branch :
    (test : Bool) (c : Counters) (rest : Option Counters)
    → reconciles c ≡ true
    → Reconciles rest
    → Reconciles (if test then some c else rest)
unfolding Reconciles
branch true c rest now later = now
branch false c rest now later = later

nothing : Reconciles none
unfolding Reconciles
nothing = tt

pub all_branches :
    (kind : String) (limit capacity : ℤ) (final : Fields)
    → Reconciles (expected_counters kind limit capacity final)
unfolding expected_counters
all_branches kind limit capacity final =
    branch (kind == "resource_sample_bound") _ _
      (reconciles_if limit limit (pos 0) (pos 0) _ (omega int_laws))
      (branch (kind == "resource_sample_reject") _ _
        (reconciles_if (limit +ℤ pos 1) limit (pos 1) (pos 0) _ (omega int_laws))
        (branch (kind == "resource_byte_bound") _ _
          (reconciles_if (pos 3) (pos 2) (pos 1) (pos 0) _ (omega int_laws))
          (branch (kind == "resource_alloc_fail") _ _
            (reconciles_if (pos 1) (pos 0) (pos 0) (pos 1) _ (omega int_laws))
            (branch (kind == "resource_recovery") _ _
              (reconciles_if (limit +ℤ pos 2) (limit +ℤ pos 1) (pos 1) (pos 0) _ (omega int_laws))
              (branch (kind == "resource_no_corruption") _ _
                (reconciles_if (limit +ℤ pos 20) limit (pos 20) (pos 0) _ (omega int_laws))
                (branch (kind == "history_keep_last_order") _ _
                  (reconciles_if (pos 5) (pos 5) (pos 0) (pos 0) _ (omega int_laws))
                  (branch (kind == "history_keep_all_bound") _ _
                    (reconciles_if (capacity +ℤ pos 1) capacity (pos 1) (pos 0) _ (omega int_laws))
                    (branch (kind == "history_pbuf_release") _ _
                      (reconciles_if (pos 5) (pos 5) (pos 0) (pos 0) _ (omega int_laws))
                      (branch (kind == "durability_volatile_late") _ _
                        (reconciles_if (pos 4) (pos 4) (pos 0) (pos 0) _ (omega int_laws))
                        (branch (kind == "durability_tl_order" || kind == "durability_tl_epoch") _ _
                          (reconciles_if (pos 5) (pos 5) (pos 0) (pos 0) _ (omega int_laws))
                          (branch (kind == "durability_tl_depth") _ _
                            (reconciles_if (pos 5) (pos 5) (pos 0) (pos 0) _ (omega int_laws))
                            (branch (kind == "durability_frag_capability") _ _
                              (reconciles_if (pos 1) (pos 1) (pos 0) (pos 0) _ (omega int_laws))
                              nothing))))))))))))

-- The kinds that compare the counters with expected ones.
abbrev pub counted_kinds : List String
counted_kinds =
    "resource_sample_bound" ∷ "resource_sample_reject" ∷ "resource_byte_bound"
    ∷ "resource_alloc_fail" ∷ "resource_recovery" ∷ "resource_no_corruption"
    ∷ "history_keep_last_order" ∷ "history_keep_all_bound" ∷ "history_pbuf_release"
    ∷ "durability_volatile_late" ∷ "durability_tl_order" ∷ "durability_tl_epoch"
    ∷ "durability_tl_depth" ∷ "durability_frag_capability" ∷ []

-- The kinds whose tests fix how many attempts there are, and what became of them.
abbrev pub fixes_attempts : String → Bool
fixes_attempts kind = contains counted_kinds kind || starts_with kind "lifespan_"

unfoldable pub Counts : Option Counters → Type 0
Counts none = ⊥
Counts (some c) = Unit

pub counted_kind :
    (kind : String) (limit capacity : ℤ) (final : Fields)
    → contains counted_kinds kind ≡ true
    → Counts (expected_counters kind limit capacity final)
unfolding Counts expected_counters
counted_kind kind limit capacity final h = ground (arith, h)

pub same_counters-reconciles :
    (a b : Counters) → same_counters a b ≡ true → reconciles b ≡ true → reconciles a ≡ true
unfolding same_counters same_attempts reconciles
same_counters-reconciles a b h k = ground (arith, h, k)
