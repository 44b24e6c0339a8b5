-- ===== src/Campaign/Bounds.antt =====
-- What a whole campaign keeps, and how many attempts it makes.
use qos_extended_mros2_esp.Base.{
  ℕ, ◌+◌, ◌≤◌, ◌≡◌, refl, ap, List, [], ◌∷◌, Option, none, some, length, max_of, arith, Bool-cases,
  inl, inr,
}
use qos_extended_mros2_esp.Base.Int.{ℤ}
use qos_extended_mros2_esp.Base.Result.{Result-cases}
use qos_extended_mros2_esp.Campaign.{
  Gate, CaseRow, Reading, CaseEntry, rebuild_entry, rebuild_ledgers, Surroundings, Progress, Ending,
  is_going, going, stopped, fatal_seen, exhausted, raised, run_case, run_cases, CampaignReport,
  CampaignOptions, finish_campaign, run_campaign, main, check_environment, open_output, bad_most,
  left_alone, Outcome, raises, bad_maximum, output_exists, dry_run_passes,
}
use qos_extended_mros2_esp.Campaign.Growth.{
  Grows, Grows-refl, Grows-trans, IsWithin, rebuild_entry-Grows, run_case-Counts,
}

-- The attempts of all cases.
abbrev pub total_attempts : List CaseEntry → ℕ
total_attempts [] = 0
total_attempts (entry ∷ entries) = length entry.attempts + total_attempts entries

-- What is kept of each case, in the order of the cases: its attempts and its receipt, and that it
-- has three attempts at most, or as many as it had.
abbrev pub KeepsEach : List CaseEntry → List CaseEntry → Type 0
KeepsEach [] [] = Unit
KeepsEach [] (after ∷ others) = ⊥
KeepsEach (before ∷ entries) [] = ⊥
KeepsEach (before ∷ entries) (after ∷ others) =
    (Grows before after × (length after.attempts ≤ max_of 3 (length before.attempts)))
    × KeepsEach entries others

KeepsEach-refl : (entries : List CaseEntry) → KeepsEach entries entries
KeepsEach-refl [] = tt
KeepsEach-refl (entry ∷ entries) = ((Grows-refl entry, ground arith), KeepsEach-refl entries)

KeepsEach-trans : (xs ys zs : List CaseEntry) → KeepsEach xs ys → KeepsEach ys zs → KeepsEach xs zs
KeepsEach-trans [] [] [] h k = tt
KeepsEach-trans [] [] (z ∷ zs) h k = absurd k
KeepsEach-trans [] (y ∷ ys) zs h k = absurd h
KeepsEach-trans (x ∷ xs) [] zs h k = absurd h
KeepsEach-trans (x ∷ xs) (y ∷ ys) [] h k = absurd k
KeepsEach-trans (x ∷ xs) (y ∷ ys) (z ∷ zs) ((grows, three), h) ((grows2, three2), k) =
    ((Grows-trans x y z grows grows2, ground (arith, three, three2)), KeepsEach-trans xs ys zs h k)

-- What is kept, with the new attempts counted from `n` to `m`.
abbrev Keeps : Option ℤ → List CaseEntry → ℕ → List CaseEntry → ℕ → Type 0
Keeps most before n after m =
    KeepsEach before after
    × (total_attempts after + n ≡ total_attempts before + m)
    × (IsWithin most n → IsWithin most m)

Keeps-trans :
    (most : Option ℤ) (xs ys zs : List CaseEntry) (n m k : ℕ)
    → Keeps most xs n ys m
    → Keeps most ys m zs k
    → Keeps most xs n zs k
Keeps-trans most xs ys zs n m k (each, count, within) (each2, count2, within2) =
    (KeepsEach-trans xs ys zs each each2, omega arith, λ h. within2 (within h))

module _ (reading : Reading) (most : Option ℤ) where
  rebuild_ledgers-Keeps :
      (entries : List CaseEntry) (n : ℕ)
      → Keeps most entries n (rebuild_ledgers reading entries).0 n
  unfolding rebuild_ledgers
  rebuild_ledgers-Keeps [] n = (tt, refl, λ h. h)
  rebuild_ledgers-Keeps (entry ∷ entries) n =
      let (grows, same) = rebuild_entry-Grows reading entry in
      let after = (rebuild_entry reading entry).0 in
      let first : Grows entry after × (length after.attempts ≤ max_of 3 (length entry.attempts)) =
        (grows, ground (arith, ap length same)) in
      elim (Result-cases (rebuild_entry reading entry).1) [
        | inl (e, refused) ↦
            rw (refused, rebuild_ledgers)
              ((first, KeepsEach-refl entries), omega (arith, ap length same), λ h. h)
        | inr (ledgers, h) ↦
            let (each, count, within) = rebuild_ledgers-Keeps entries n in
            rw (h, rebuild_ledgers) ((first, each), omega (arith, ap length same, count), λ h. h)
      ]

-- What a report of a campaign on an output says.
abbrev pub IsKept : Option ℤ → List CaseEntry → CampaignReport → Type 0
IsKept most entries report =
    (after : List CaseEntry) × (report.entries ≡ some after)
    × KeepsEach entries after
    × (total_attempts after ≡ total_attempts entries + report.new_attempts)
    × IsWithin most report.new_attempts

IsWithin-zero : (most : Option ℤ) → IsWithin most 0
IsWithin-zero none = tt
IsWithin-zero (some most) = inl refl

left_alone-IsKept :
    (most : Option ℤ) (entries : List CaseEntry) (outcome : Outcome)
    → IsKept most entries (left_alone (some entries) outcome)
left_alone-IsKept most entries outcome =
    (entries, refl, KeepsEach-refl entries, omega arith, IsWithin-zero most)

module _ {World : Type 0} (outside : Surroundings World) (reading : Reading) (gate : Gate) where
  run_cases-Keeps :
      (most : Option ℤ) (entries : List CaseEntry) (p : Progress World)
      → let ran = run_cases outside reading gate most entries p in
        Keeps most entries p.new_attempts ran.0 ran.1.0.new_attempts
  unfolding run_cases
  run_cases-Keeps most [] p = (tt, refl, λ h. h)
  run_cases-Keeps most (entry ∷ entries) p =
      let ran = run_case outside reading gate most entry p in
      let ((grows, count, within), three) = run_case-Counts outside reading gate most entry p in
      let first : Grows entry ran.0 × (length ran.0.attempts ≤ max_of 3 (length entry.attempts)) =
        (grows, three) in
      elim (Bool-cases (is_going ran.1.1)) [
        | inl goes ↦
            let (each, count2, within2) = run_cases-Keeps most entries ran.1.0 in
            rw (goes, run_cases)
              ((first, each), omega (arith, count, count2), λ h. within2 (within h))
        | inr ends ↦
            rw (ends, run_cases) ((first, KeepsEach-refl entries), omega (arith, count), within)
      ]

  finish_campaign-Keeps :
      (most : Option ℤ) (entries : List CaseEntry) (made : ℕ) (ending : Ending)
      → let report = finish_campaign reading entries made ending in
        (after : List CaseEntry) × (report.entries ≡ some after)
        × Keeps most entries made after report.new_attempts
  unfolding finish_campaign
  finish_campaign-Keeps most entries made (raised e) =
      (entries, refl, (KeepsEach-refl entries, refl, λ h. h))
  finish_campaign-Keeps most entries made going =
      (_, refl, rebuild_ledgers-Keeps reading most entries made)
  finish_campaign-Keeps most entries made stopped =
      (_, refl, rebuild_ledgers-Keeps reading most entries made)
  finish_campaign-Keeps most entries made fatal_seen =
      (_, refl, rebuild_ledgers-Keeps reading most entries made)
  finish_campaign-Keeps most entries made exhausted =
      (_, refl, rebuild_ledgers-Keeps reading most entries made)

  run_campaign-Keeps :
      (most : Option ℤ) (entries : List CaseEntry) (world : World)
      → let report = run_campaign outside reading gate most entries world in
        (after : List CaseEntry) × (report.entries ≡ some after)
        × Keeps most entries 0 after report.new_attempts
  unfolding run_campaign
  run_campaign-Keeps most entries world =
      let rebuilt = rebuild_ledgers reading entries in
      let kept = rebuild_ledgers-Keeps reading most entries 0 in
      elim (Result-cases rebuilt.1) [
        | inl (e, refused) ↦ rw (refused, run_campaign) (rebuilt.0, refl, kept)
        | inr (ledgers, h) ↦
            rw (h, run_campaign)
              (elim (Bool-cases ledgers.fatal) [
                | inl fatal ↦ rw fatal (rebuilt.0, refl, kept)
                | inr fine ↦
                    let ran =
                      run_cases outside reading gate most rebuilt.0
                        (record { world = world; new_attempts = 0 }) in
                    let (after, there, kept2) =
                      finish_campaign-Keeps most ran.0 ran.1.0.new_attempts ran.1.1 in
                    rw fine (
                      after,
                      there,
                      Keeps-trans most entries ran.0 after 0 ran.1.0.new_attempts _
                          (Keeps-trans most entries rebuilt.0 ran.0 0 0 ran.1.0.new_attempts kept (
                            run_cases-Keeps most rebuilt.0
                              (record { world = world; new_attempts = 0 })))
                          kept2,
                    )
              ])
      ]

  -- A campaign that resumes an output, however it ends, keeps every case with the attempts and the
  -- receipt that it has, in their order, and only adds attempts after them; a case with at most
  -- three attempts has at most three. The attempts in the output are those that were there and the
  -- new ones, which are no more than `--max-new-attempts`.
  pub main-IsKept :
      (options : CampaignOptions) (rows : List CaseRow) (entries : List CaseEntry) (world : World)
      → IsKept options.max_new_attempts entries
          (main outside reading gate options rows (some entries) world)
  unfolding main open_output
  main-IsKept options rows entries world =
      let most = options.max_new_attempts in
      let seen = outside.observe world in
      elim (Bool-cases (bad_most most)) [
        | inl bad ↦ rw (bad, main) (left_alone-IsKept most entries (raises bad_maximum))
        | inr fine ↦
            rw (fine, main)
              (elim (Result-cases (check_environment reading.canonical_sha256 gate seen.1)) [
                | inl (e, differs) ↦ rw differs (left_alone-IsKept most entries (raises e))
                | inr (_, fits) ↦ rw fits (elim (Bool-cases options.dry_run) [
                  | inl dry ↦ rw dry (left_alone-IsKept most entries dry_run_passes)
                  | inr wet ↦ rw wet (elim (Bool-cases options.resume) [
                    | inr new ↦ rw new (left_alone-IsKept most entries (raises output_exists))
                    | inl again ↦
                        let (after, there, (each, count, within)) =
                          run_campaign-Keeps most entries seen.0 in
                        rw again
                          (after, there, each, omega (arith, count), within (IsWithin-zero most))
                  ])
                ])
              ])
      ]
