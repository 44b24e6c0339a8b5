-- ===== src/Rtps/Times/Statistics.antt =====
-- `median_or_blank`, `max_or_blank` and the differences of neighbouring times.
use qos_extended_mros2_esp.Base.{
  ℕ, ◌+◌, ◌-◌, ◌*◌, ◌/◌, ◌%◌, Option, none, some, List, [], ◌∷◌, length, get_elem?, max_or_zero,
  eqb, if◌then◌else◌,
}
use qos_extended_mros2_esp.Base.Order.{sort_by}

-- `sorted(times)`
unfoldable pub sort_times : List ℕ → List ℕ
unfolding sort_by
sort_times = sort_by (λ (t : ℕ). t)

-- `xs[i]`, for an index that is in range
unfoldable pub time_at : List ℕ → ℕ → ℕ
time_at xs i = elim (get_elem? xs i) [ none ↦ 0 | some t ↦ t ]

-- Twice the median of sorted values.
unfoldable pub sorted_median : List ℕ → ℕ
unfolding time_at
sorted_median xs =
    let n = length xs in
    if eqb (n % 2) 1 then 2 * time_at xs (n / 2) else time_at xs (n / 2 - 1) + time_at xs (n / 2)

-- Twice `statistics.median(values)`, or `none` for the blank.
unfoldable pub median_or_blank : List ℕ → Option ℕ
unfolding sort_times sorted_median
median_or_blank [] = none
median_or_blank (x ∷ xs) = some (sorted_median (sort_times (x ∷ xs)))

unfoldable pub max_or_blank : List ℕ → Option ℕ
max_or_blank [] = none
max_or_blank (x ∷ xs) = some (max_or_zero (x ∷ xs))

-- `[right - left for left, right in zip(times, times[1:])]`
unfoldable pub intervals : List ℕ → List ℕ
intervals [] = []
intervals (left ∷ []) = []
intervals (left ∷ right ∷ times) = (right - left) ∷ intervals (right ∷ times)

-- `times[1] - times[0]`
unfoldable pub first_delay : List ℕ → ℕ
unfolding time_at
first_delay times = time_at times 1 - time_at times 0

-- `times[-1] - times[0]`
unfoldable pub span : List ℕ → ℕ
unfolding time_at
span times = time_at times (length times - 1) - time_at times 0
