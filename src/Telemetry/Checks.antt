-- ===== src/Telemetry/Checks.antt =====
-- What the dump, the tasks, the raw lines and the extremes of a log that passes are.
use qos_extended_mros2_esp.Base.{
  ℕ, ◌+◌, ◌-◌, ◌<◌, ◌≤◌, ◌≡◌, ◌≢◌, refl, ap, ◌∙◌, subst, String, Bool, false, not, Option, filter,
  take, drop, Any, Bool-cases, inl, inr, ltb, ◌⊎◌, none, some, List, [], ◌∷◌, All, any, length,
  arith, ◌==◌, string_eq, option_eq, All-mono,
}
use qos_extended_mros2_esp.Base.Dict.{lookup}
use qos_extended_mros2_esp.Base.Fields.{Fields}
use qos_extended_mros2_esp.Base.Int.{ℤ, pos, ◌≤ℤ◌, leb_ℤ, int_eq}
use qos_extended_mros2_esp.Base.Result.{ok, ok_injective, >>=-eq-ok, raise_if, raise_if-eq-ok}
use qos_extended_mros2_esp.Base.Text.{codes}
use qos_extended_mros2_esp.Telemetry.Delivery.{single-eq}
use qos_extended_mros2_esp.Telemetry.Record.{
  smoke_error, incomplete, final_samples, no_tasks, record_count, integer,
}
use qos_extended_mros2_esp.Telemetry.Crc.{crc32}
use qos_extended_mros2_esp.Telemetry.Raw.{
  indices_from, is_activity, activity_between, check_activity, check_raw,
}
use qos_extended_mros2_esp.Telemetry.Parts.{
  check_final, canonical, all_but_last, check_dump, check_tasks,
}
use qos_extended_mros2_esp.Telemetry.Log.{least, greatest}

pub check_dump_lem :
    (lines : List String) (dump : Fields) (u : Unit {0})
    → check_dump lines dump ≡ ok u
    → (integer dump "record_count" ≡ ok (pos (length (all_but_last lines))))
      × (integer dump "crc32" ≡ ok (pos (crc32 (canonical (all_but_last lines)))))
unfolding check_dump
check_dump_lem lines dump u h =
    let (count, h1, k1) = >>=-eq-ok (integer dump "record_count") _ h in
    let (_, h2, k2) =
      >>=-eq-ok (raise_if (not (count == pos (length (all_but_last lines)))) record_count) _ k1 in
    let (crc, h3, k3) = >>=-eq-ok (integer dump "crc32") _ k2 in
    let as_many : count ≡ pos (length (all_but_last lines)) =
      ground (arith, raise_if-eq-ok _ _ h2) in
    let same : crc ≡ pos (crc32 (canonical (all_but_last lines))) =
      ground (arith, raise_if-eq-ok _ _ k3) in
    (h1 ∙ ap ok as_many, h3 ∙ ap ok same)

pub check_tasks_lem :
    (tasks : List Fields) (final : Fields) (u : Unit {0})
    → check_tasks tasks final ≡ ok u
    → integer final "tasks" ≡ ok (pos (length tasks))
unfolding check_tasks
check_tasks_lem tasks final u h =
    let (n, h1, k1) = >>=-eq-ok (integer final "tasks") _ h in
    let same : n ≡ pos (length tasks) = ground (arith, raise_if-eq-ok _ _ k1) in h1 ∙ ap ok same

pub check_final-tasks :
    (final : Fields) (u : Unit {0})
    → check_final final ≡ ok u
    → (lookup "completion" final ≡ some "complete") × (integer final "tasks" ≢ ok (pos 0))
unfolding check_final
check_final-tasks final u h =
    let (_, h1, k1) =
      >>=-eq-ok (raise_if (not (lookup "completion" final == some "complete")) incomplete) _ h in
    let (samples, _, k2) = >>=-eq-ok (integer final "samples") _ k1 in
    let (_, _, k3) = >>=-eq-ok (raise_if (not (samples == pos 200)) final_samples) _ k2 in
    let (tasks, read, k4) = >>=-eq-ok (integer final "tasks") _ k3 in
    let (_, some_task, _) = >>=-eq-ok (raise_if (tasks == pos 0) no_tasks) _ k4 in
    (
      ground (arith, raise_if-eq-ok _ _ h1),
      λ none_there. absurd (ground (arith, read, raise_if-eq-ok _ _ some_task)),
    )

length-eq-zero {ℓ} : {A : Type ℓ} (xs : List A) → length xs ≡ 0 → xs ≡ []
length-eq-zero [] h = refl
length-eq-zero (x ∷ xs) h = absurd (omega arith)

filter-eq-nil {ℓ} :
    {A : Type ℓ} (p : A → Bool) (xs : List A) → filter p xs ≡ [] → All (λ x. p x ≡ false) xs
filter-eq-nil p [] h = tt
filter-eq-nil p (x ∷ xs) h = elim (Bool-cases (p x)) [
  | inl kept ↦ absurd (ground (arith, (rw kept at h)))
  | inr gone ↦ (gone, filter-eq-nil p xs (rw gone at h))
]

-- The lines behind one index and before another.
abbrev pub lines_between : ℕ → ℕ → List String → List String
lines_between config start raw_lines = take (start - (config + 1)) (drop (config + 1) raw_lines)

-- The configuration stands first, with only blanks up to the start; or it does not stand first.
abbrev pub IsBlank : ℕ → ℕ → List String → Type 0
IsBlank config start raw_lines =
    ((config < start)
      × All (λ raw. is_activity (codes raw) ≡ false) (lines_between config start raw_lines))
    ⊎ (start ≤ config)

quiet-IsBlank :
    (config start : ℕ) (raw_lines : List String)
    → activity_between config start raw_lines ≡ []
    → IsBlank config start raw_lines
unfolding activity_between
quiet-IsBlank config start raw_lines h = elim (Bool-cases (ltb config start)) [
  | inl before ↦
      inl (ground (arith, before), filter-eq-nil _ (lines_between config start raw_lines) h)
  | inr behind ↦ inr (ground (arith, behind))
]

-- The only line of the configuration and the only start of the window, and what is between.
abbrev pub IsQuiet : List String → Type 0
IsQuiet raw_lines =
    (config : ℕ) × (start : ℕ) × (indices_from 0 "BENCH_CONFIG " raw_lines ≡ config ∷ [])
    × (indices_from 0 "BENCH_WINDOW_START " raw_lines ≡ start ∷ [])
    × IsBlank config start raw_lines

check_activity-IsQuiet :
    (config start : Option ℕ) (raw_lines : List String) (u : Unit {0})
    → check_activity config start raw_lines ≡ ok u
    → (a : ℕ) × (b : ℕ) × (config ≡ some a)
      × (start ≡ some b)
      × (activity_between a b raw_lines ≡ [])
unfolding check_activity
check_activity-IsQuiet none start raw_lines u h = absurd (ground arith)
check_activity-IsQuiet (some a) none raw_lines u h = absurd (ground arith)
check_activity-IsQuiet (some a) (some b) raw_lines u h = (
  a,
  b,
  refl,
  refl,
  length-eq-zero (activity_between a b raw_lines) (ground (arith, raise_if-eq-ok _ _ h)),
)

pub check_raw-IsQuiet :
    (raw_lines : List String) (u : Unit {0}) → check_raw raw_lines ≡ ok u → IsQuiet raw_lines
unfolding check_raw
check_raw-IsQuiet raw_lines u h =
    let (_, _, k1) = >>=-eq-ok (raise_if (any _ raw_lines) smoke_error) _ h in
    let (a, b, config, start, quiet) = check_activity-IsQuiet _ _ raw_lines u k1 in
    (a, b, single-eq _ a config, single-eq _ b start, quiet-IsBlank a b raw_lines quiet)

ℤ_le_trans : (a b c : ℤ) → a ≤ℤ b → b ≤ℤ c → a ≤ℤ c
ℤ_le_trans a b c p q = omega arith

pub least-All : (xs : List ℤ) (m : ℤ) → least xs ≡ ok m → All (λ x. m ≤ℤ x) xs
unfolding least
least-All [] m h = tt
least-All (x ∷ []) m h = (ground arith, tt)
least-All (x ∷ y ∷ xs) m h =
    let (n, rest, same) = >>=-eq-ok (least (y ∷ xs)) _ h in
    let below : All (λ z. n ≤ℤ z) (y ∷ xs) = least-All (y ∷ xs) n rest in
    let lower : (m ≤ℤ n) × (m ≤ℤ x) = (ground (arith, same), ground (arith, same)) in
    (lower.1, All-mono (y ∷ xs) (λ z k. ℤ_le_trans m n z lower.0 k) below)

pub least-Any : (xs : List ℤ) (m : ℤ) → least xs ≡ ok m → Any (λ x. x ≡ m) xs
unfolding least
least-Any [] m h = absurd (ground (arith, h))
least-Any (x ∷ []) m h = inl (ok_injective h)
least-Any (x ∷ y ∷ xs) m h =
    let (n, rest, same) = >>=-eq-ok (least (y ∷ xs)) _ h in
    elim (Bool-cases (leb_ℤ x n)) [
      | inl first ↦ inl (ok_injective (rw first at same))
      | inr other ↦ inr (
          subst (λ k. Any (λ z. z ≡ k) (y ∷ xs)) (ok_injective (rw other at same))
            (least-Any (y ∷ xs) n rest))
    ]

pub greatest-All : (xs : List ℤ) (m : ℤ) → greatest xs ≡ ok m → All (λ x. x ≤ℤ m) xs
unfolding greatest
greatest-All [] m h = tt
greatest-All (x ∷ []) m h = (ground arith, tt)
greatest-All (x ∷ y ∷ xs) m h =
    let (n, rest, same) = >>=-eq-ok (greatest (y ∷ xs)) _ h in
    let above : All (λ z. z ≤ℤ n) (y ∷ xs) = greatest-All (y ∷ xs) n rest in
    let upper : (n ≤ℤ m) × (x ≤ℤ m) = (ground (arith, same), ground (arith, same)) in
    (upper.1, All-mono (y ∷ xs) (λ z k. ℤ_le_trans z n m k upper.0) above)

pub greatest-Any : (xs : List ℤ) (m : ℤ) → greatest xs ≡ ok m → Any (λ x. x ≡ m) xs
unfolding greatest
greatest-Any [] m h = absurd (ground (arith, h))
greatest-Any (x ∷ []) m h = inl (ok_injective h)
greatest-Any (x ∷ y ∷ xs) m h =
    let (n, rest, same) = >>=-eq-ok (greatest (y ∷ xs)) _ h in
    elim (Bool-cases (leb_ℤ n x)) [
      | inl first ↦ inl (ok_injective (rw first at same))
      | inr other ↦ inr (
          subst (λ k. Any (λ z. z ≡ k) (y ∷ xs)) (ok_injective (rw other at same))
            (greatest-Any (y ∷ xs) n rest))
    ]
