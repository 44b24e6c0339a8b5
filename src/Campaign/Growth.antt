-- ===== src/Campaign/Growth.antt =====
-- What a campaign keeps: the attempts that are there, and their number within the bounds.
use mathlib.Core.List.{append_assoc, append-nil}
use qos_extended_mros2_esp.Base.{
  ℕ, zero, suc, ◌+◌, ◌-◌, ◌≤◌, ◌≡◌, refl, sym, ap, ◌∙◌, false, List, [], ◌∷◌, ◌++◌, Option, none,
  some, length, length-append, max_of, arith, Bool-cases, Option-cases, ◌⊎◌, inl, inr,
}
use qos_extended_mros2_esp.Base.Int.{ℤ, pos, negsuc, ◌≤ℤ◌}
use qos_extended_mros2_esp.Base.Result.{ok, Result-cases}
use qos_extended_mros2_esp.Campaign.{
  Gate, Files, Reading, CaseEntry, Receipt, is_passing, accepted_attempt, record_receipt,
  accept_entry, rebuild_entry, Surroundings, Progress, is_spent, judge_attempt, run_attempt,
  finished, prepare, start_attempt, run_attempts, run_case,
}

abbrev pub KeepsReceipt : Option Receipt → Option Receipt → Type 0
KeepsReceipt none after = Unit
KeepsReceipt (some receipt) after = after ≡ some receipt

KeepsReceipt-refl : (receipt : Option Receipt) → KeepsReceipt receipt receipt
KeepsReceipt-refl none = tt
KeepsReceipt-refl (some receipt) = refl

KeepsReceipt-trans :
    (a b c : Option Receipt) → KeepsReceipt a b → KeepsReceipt b c → KeepsReceipt a c
KeepsReceipt-trans none b c h k = tt
KeepsReceipt-trans (some a) none c h k = absurd (ground arith)
KeepsReceipt-trans (some a) (some b) c h k = k ∙ h

-- Attempts come after those that are there, and a receipt stays.
abbrev pub Grows : CaseEntry → CaseEntry → Type 0
Grows before after =
    (after.row ≡ before.row)
    × ((more : List Files) × (after.attempts ≡ before.attempts ++ more))
    × KeepsReceipt before.receipt after.receipt

pub Grows-refl : (entry : CaseEntry) → Grows entry entry
Grows-refl entry = (refl, ([], sym (append-nil entry.attempts)), KeepsReceipt-refl entry.receipt)

pub Grows-trans : (a b c : CaseEntry) → Grows a b → Grows b c → Grows a c
Grows-trans a b c (row, (xs, h), keep) (row2, (ys, k), keep2) = (
  row2 ∙ row,
  (xs ++ ys, k ∙ ap (λ zs. zs ++ ys) h ∙ append_assoc a.attempts xs ys),
  KeepsReceipt-trans a.receipt b.receipt c.receipt keep keep2,
)

module _ (reading : Reading) where
  pub record_receipt-Grows :
      (entry received : CaseEntry) (n : ℕ) (files : Files)
      → record_receipt reading entry n files ≡ ok received
      → Grows entry received × (received.attempts ≡ entry.attempts)
  unfolding record_receipt
  record_receipt-Grows entry received n files h = ground (arith, Grows-refl entry)

  accept_entry-Grows :
      (entry : CaseEntry) (passing : Option (ℕ × Files))
      → Grows entry (accept_entry reading entry passing).0
        × ((accept_entry reading entry passing).0.attempts ≡ entry.attempts)
  unfolding accept_entry
  accept_entry-Grows entry none = (Grows-refl entry, refl)
  accept_entry-Grows entry (some (n, files)) =
      elim (Result-cases (record_receipt reading entry n files)) [
        | inl (e, refused) ↦ rw (refused, accept_entry) (Grows-refl entry, refl)
        | inr (received, h) ↦ rw (h, accept_entry) (record_receipt-Grows entry received n files h)
      ]

  pub rebuild_entry-Grows :
      (entry : CaseEntry)
      → Grows entry (rebuild_entry reading entry).0
        × ((rebuild_entry reading entry).0.attempts ≡ entry.attempts)
  unfolding rebuild_entry
  rebuild_entry-Grows entry = elim (Result-cases (accepted_attempt reading entry)) [
    | inl (e, many) ↦ rw (many, rebuild_entry) (Grows-refl entry, refl)
    | inr (passing, h) ↦ rw (h, rebuild_entry) (accept_entry-Grows entry passing)
  ]

  judge_attempt-Grows :
      (entry : CaseEntry) (n : ℕ) (files : Files)
      → Grows entry (judge_attempt reading entry n files).0
        × ((judge_attempt reading entry n files).0.attempts ≡ entry.attempts)
  unfolding judge_attempt
  judge_attempt-Grows entry n files = elim (Bool-cases (is_passing reading entry.row.kind files)) [
    | inl passes ↦ rw passes (elim (Result-cases (record_receipt reading entry n files)) [
      | inl (e, refused) ↦ rw refused (Grows-refl entry, refl)
      | inr (received, h) ↦ rw h (record_receipt-Grows entry received n files h)
    ])
    | inr fails ↦ rw fails (Grows-refl entry, refl)
  ]

-- As many attempts as before, and `made` more.
abbrev Adds : CaseEntry → ℕ → CaseEntry → Type 0
Adds before made after =
    Grows before after × (length after.attempts ≡ length before.attempts + made)

-- A step of the loops: the entry grows by the attempts that are counted, within the maximum.
abbrev pub IsWithin : Option ℤ → ℕ → Type 0
IsWithin none made = Unit
IsWithin (some most) made = (made ≡ 0) ⊎ (pos made ≤ℤ most)

-- What a step of the loops does to the entry: it grows by the attempts that are counted.
abbrev pub Counts : Option ℤ → CaseEntry → ℕ → CaseEntry → ℕ → Type 0
Counts most before n after m =
    Grows before after
    × (length after.attempts + n ≡ length before.attempts + m)
    × (IsWithin most n → IsWithin most m)

Counts-refl : (most : Option ℤ) (entry : CaseEntry) (n : ℕ) → Counts most entry n entry n
Counts-refl most entry n = (Grows-refl entry, refl, λ h. h)

Counts-trans :
    (most : Option ℤ) (a b c : CaseEntry) (n m k : ℕ)
    → Counts most a n b m
    → Counts most b m c k
    → Counts most a n c k
Counts-trans most a b c n m k (ab, count, within) (bc, count2, within2) =
    (Grows-trans a b c ab bc, omega arith, λ h. within2 (within h))

IsWithin-suc : (most : Option ℤ) (n : ℕ) → is_spent most n ≡ false → IsWithin most (n + 1)
unfolding is_spent
IsWithin-suc none n h = tt
IsWithin-suc (some (pos most)) n h = inr (ground arith)
IsWithin-suc (some (negsuc most)) n h = inr (ground arith)

module _ {World : Type 0} (outside : Surroundings World) (reading : Reading) (gate : Gate) where
  run_attempt-Adds :
      (entry : CaseEntry) (world : World)
      → Adds entry 1 (run_attempt outside reading gate entry world).1.0
  unfolding run_attempt
  run_attempt-Adds entry world =
      let n = length entry.attempts in
      let files = finished outside reading gate entry.row (outside.run entry.row n world).1 in
      let added : CaseEntry = record entry { attempts = entry.attempts ++ files ∷ [] } in
      let (grows, same) = judge_attempt-Grows reading added n files in
      (
        Grows-trans entry added _ (refl, (files ∷ [], refl), KeepsReceipt-refl entry.receipt) grows,
        ap length same ∙ length-append entry.attempts (files ∷ []),
      )

  start_attempt-Counts :
      (most : Option ℤ) (entry : CaseEntry) (p : Progress World)
      → let round = start_attempt outside reading gate most entry p in
        Counts most entry p.new_attempts round.0 round.1.0.new_attempts
        × (length round.0.attempts ≤ length entry.attempts + 1)
  unfolding start_attempt
  start_attempt-Counts most entry p = elim (Bool-cases (is_spent most p.new_attempts)) [
    | inl spent ↦ rw (spent, start_attempt) (Counts-refl most entry p.new_attempts, omega arith)
    | inr more ↦
        rw (more, start_attempt)
          (elim (Result-cases (prepare outside reading gate entry.row.kind p.world).1) [
            | inl (e, differs) ↦ rw differs (Counts-refl most entry p.new_attempts, omega arith)
            | inr (_, fits) ↦
                let world = (prepare outside reading gate entry.row.kind p.world).0 in
                let (grows, one) = run_attempt-Adds entry world in
                rw fits (
                  (grows, omega (arith, one), λ h. IsWithin-suc most p.new_attempts more),
                  omega (arith, one),
                )
          ])
  ]

  run_attempts-Counts :
      (most : Option ℤ) (left : ℕ) (entry : CaseEntry) (p : Progress World)
      → let ran = run_attempts outside reading gate most left entry p in
        Counts most entry p.new_attempts ran.0 ran.1.0.new_attempts
        × (length ran.0.attempts ≤ length entry.attempts + left)
  unfolding run_attempts
  run_attempts-Counts most zero entry p = (Counts-refl most entry p.new_attempts, omega arith)
  run_attempts-Counts most (suc left) entry p =
      let round = start_attempt outside reading gate most entry p in
      let (counts, one) = start_attempt-Counts most entry p in
      elim (Option-cases round.1.1) [
        | inr (ending, ended) ↦ rw (ended, run_attempts) (counts, omega (arith, one))
        | inl again ↦
            let (counts2, more) = run_attempts-Counts most left round.0 round.1.0 in
            rw (again, run_attempts)
              (
                Counts-trans most entry round.0 _ p.new_attempts round.1.0.new_attempts _ counts
                    counts2,
                omega (arith, one, more),
              )
      ]

  pub run_case-Counts :
      (most : Option ℤ) (entry : CaseEntry) (p : Progress World)
      → let ran = run_case outside reading gate most entry p in
        Counts most entry p.new_attempts ran.0 ran.1.0.new_attempts
        × (length ran.0.attempts ≤ max_of 3 (length entry.attempts))
  unfolding run_case
  run_case-Counts most entry p = elim (Result-cases (accepted_attempt reading entry)) [
    | inl (e, many) ↦ rw (many, run_case) (Counts-refl most entry p.new_attempts, ground arith)
    | inr (some attempt, there) ↦
        rw (there, run_case) (Counts-refl most entry p.new_attempts, ground arith)
    | inr (none, missing) ↦
        let (counts, more) = run_attempts-Counts most (3 - length entry.attempts) entry p in
        rw (missing, run_case) (counts, ground (arith, more))
  ]
