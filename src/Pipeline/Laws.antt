-- ===== src/Pipeline/Laws.antt =====
-- What a run of the pipeline leaves.
use mathlib.Core.List.{append-nil, append_assoc}
use mathlib.Core.Option.{some-injective}
use qos_extended_mros2_esp.Base.{
  ℕ, ◌+◌, ◌≡◌, ◌≢◌, refl, sym, ◌∙◌, subst, String, true, false, Option, none, some, List, [], ◌∷◌,
  ◌++◌, length, length-append, All, All-append, arith, Bool-cases, ◌⊎◌, inl, inr, if◌then◌else◌,
  ◌==◌, string_eq,
}
use qos_extended_mros2_esp.Base.Int.{pos, int_eq}
use qos_extended_mros2_esp.Base.Result.{Result, ok, err}
use qos_extended_mros2_esp.Pipeline.Commands.{Options}
use qos_extended_mros2_esp.Pipeline.Run.{
  Outside, Step, Manifest, Stop, stopped_at, manifest_of, run_steps,
}

abbrev pub IsPassed : Step → Type 0
IsPassed step = step.returncode ≡ pos 0

-- The steps are those of the commands, in order, up to the first that does not return 0.
abbrev pub IsExecution : List (String × List String) → List Step → Result Stop (Unit {0}) → Type 0
IsExecution [] steps result = (steps ≡ []) × (result ≡ ok tt)
IsExecution (command ∷ commands) [] result = ⊥
IsExecution (command ∷ commands) (step ∷ steps) result =
    (step.name ≡ command.0)
    × (step.command ≡ command.1)
    × ((IsPassed step × IsExecution commands steps result)
        ⊎ ((step.returncode ≢ pos 0)
            × (steps ≡ [])
            × (result ≡ err (stopped_at step.name step.returncode))))

-- The manifest holds the first records, of steps that returned 0.
abbrev pub IsManifest : ℕ → Manifest → List Step → Type 0
IsManifest count manifest records =
    (length manifest.steps ≡ count)
    × All IsPassed manifest.steps
    × ((rest : List Step) × (records ≡ manifest.steps ++ rest))

wire_named : (◌==◌ {A = String} "wire_analysis" "wire_analysis") ≡ true
unfolding string_eq
wire_named = refl

abbrev pub IsOther : String × List String → Type 0
IsOther command = (command.0 == "wire_analysis") ≡ false

module _ (O : Outside) (options : Options) where
  pub run_steps-IsExecution :
      (w : O.World) (records : List Step) (written : Option Manifest)
      (commands : List (String × List String))
      → (steps : List Step) × ((run_steps O options w records written commands).1.records
          ≡ records ++ steps)
        × IsExecution commands steps (run_steps O options w records written commands).1.result
  unfolding run_steps
  run_steps-IsExecution w records written [] = ([], sym (append-nil records), (refl, refl))
  run_steps-IsExecution w records written ((name, command) ∷ commands) =
      let (w1, returncode) = O.run command w in
      let step : Step = record { name = name; command = command; returncode = returncode } in
      let next =
        if name == "wire_analysis"
        then some (manifest_of O options (records ++ step ∷ []))
        else written in
      elim (Bool-cases (returncode == pos 0)) [
        | inl works ↦
            let (steps, all, said) =
              run_steps-IsExecution w1 (records ++ step ∷ []) next commands in
            rw works (
              step ∷ steps,
              all ∙ append_assoc records (step ∷ []) steps,
              (refl, refl, inl (ground (arith, works), said)),
            )
        | inr fails ↦
            rw fails (step ∷ [], refl, (refl, refl, inr (ground (arith, fails), refl, refl)))
      ]

  written_kept :
      (w : O.World) (records : List Step) (written : Option Manifest)
      (commands : List (String × List String))
      → All IsOther commands
      → (run_steps O options w records written commands).1.written ≡ written
  unfolding run_steps
  written_kept w records written [] other = refl
  written_kept w records written ((name, command) ∷ commands) (this, other) =
      let (w1, returncode) = O.run command w in
      elim (Bool-cases (returncode == pos 0)) [
        | inl works ↦ rw (works, this) (written_kept w1 _ written commands other)
        | inr fails ↦ rw fails refl
      ]

  pub written_first :
      (w : O.World) (records : List Step) (manifest : Manifest)
      (before : List (String × List String)) (wire : List String)
      (after : List (String × List String))
      → All IsPassed records
      → All IsOther before
      → All IsOther after
      → (run_steps O options w records none (before ++ ("wire_analysis", wire) ∷ after)).1.written
        ≡ some manifest
      → IsManifest
          (length records + length before + 1)
          manifest
          (run_steps O options w records none (before ++ ("wire_analysis", wire) ∷ after)).1.records
  unfolding run_steps
  written_first w records manifest [] wire after passed other other_after h =
      let (w1, returncode) = O.run wire w in
      let step : Step = record {
        name = "wire_analysis";
        command = wire;
        returncode = returncode;
      } in
      let added = records ++ step ∷ [] in
      elim (Bool-cases (returncode == pos 0)) [
        | inl works ↦
            let (steps, all, said) =
              run_steps-IsExecution w1 added (some (manifest_of O options added)) after in
            let same : manifest_of O options added ≡ manifest = some-injective _ _ (
              sym (written_kept w1 added (some (manifest_of O options added)) after other_after)
              ∙ rw (works, wire_named) at h) in
            rw (works, wire_named)
              (subst
                (λ m.
                  IsManifest (length records + 0 + 1) m
                    (run_steps O options w1 added (some (manifest_of O options added))
                      after).1.records)
                same
                (
                  omega (arith, length-append records (step ∷ [])),
                  All-append IsPassed records (step ∷ []) passed (ground (arith, works)),
                  (steps, all),
                ))
        | inr fails ↦ absurd (ground (arith, rw fails at h))
      ]
  written_first w records manifest ((name, command) ∷ before) wire after passed (this, other)
        other_after h =
      let (w1, returncode) = O.run command w in
      let step : Step = record { name = name; command = command; returncode = returncode } in
      let added = records ++ step ∷ [] in
      elim (Bool-cases (returncode == pos 0)) [
        | inl works ↦
            rw (works, this)
              (subst
                (λ n.
                  IsManifest n manifest
                    (run_steps O options w1 added none
                      (before ++ ("wire_analysis", wire) ∷ after)).1.records)
                (omega (arith, length-append records (step ∷ [])))
                (written_first w1 added manifest before wire after
                  (All-append IsPassed records (step ∷ []) passed (ground (arith, works))) other
                  other_after (rw (works, this) at h)))
        | inr fails ↦ absurd (ground (arith, rw fails at h))
      ]
