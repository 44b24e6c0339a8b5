-- ===== src/Pipeline/Release.antt =====
-- What `main` of the pipeline guarantees.
use qos_extended_mros2_esp.Base.{
  ◌≡◌, ◌≢◌, refl, String, Bool, true, false, not, ◌&&◌, ◌||◌, none, some, [], ◌∷◌, ◌++◌, All, arith,
  Bool-cases, inl, inr, ◌==◌, string_eq,
}
use qos_extended_mros2_esp.Base.Result.{ok}
use qos_extended_mros2_esp.Base.Text.{codes}
use qos_extended_mros2_esp.Pipeline.Commands.{
  Options, pipeline_commands, evidence_commands, confirmatory_analysis, wire_analysis,
  seal_commands,
}
use qos_extended_mros2_esp.Pipeline.Run.{
  Outside, Manifest, Stop, unsupported_characters, not_acknowledged, unclean_worktree,
  no_environment, Execution, first_of, is_results_id, refused, run_steps, main,
}
use qos_extended_mros2_esp.Pipeline.Laws.{
  IsExecution, IsManifest, IsOther, run_steps-IsExecution, written_first,
}

-- The tests before the first step, all of them passed.
abbrev pub is_allowed : Outside → Options → Bool
is_allowed O options =
    is_results_id (codes options.results_id)
    && (options.new_window_ack && options.network_reassociated_ack)
    && O.status == ""
    && O.environment

abbrev pub IsRefused : Execution → Type 0
IsRefused run = (run.records ≡ []) × (run.written ≡ none) × (run.result ≢ ok tt)

abbrev pub IsRun : Outside → Options → Bool → Execution → Type 0
IsRun O options true run =
    IsExecution (pipeline_commands options (first_of 7 O.head)) run.records run.result
IsRun O options false run = IsRefused run

evidence-IsOther :
    (options : Options) (tag : String)
    → All IsOther (evidence_commands options ++ confirmatory_analysis options tag ∷ [])
unfolding string_eq
evidence-IsOther options tag = (refl, (refl, (refl, (refl, (refl, tt)))))

seal-IsOther : (options : Options) → All IsOther (seal_commands options)
unfolding string_eq
seal-IsOther options = (refl, (refl, tt))

module _ (O : Outside) (options : Options) where
  main-allowed :
      (w : O.World)
      → is_allowed O options ≡ true
      → (main O options w)
        ≡ run_steps O options w [] none (pipeline_commands options (first_of 7 O.head))
  unfolding main
  main-allowed w h = ground arith

  main-refused :
      (w : O.World)
      → is_allowed O options ≡ false
      → (stop : Stop) × (main O options w ≡ (w, refused O options stop))
  unfolding main
  main-refused w h = elim (Bool-cases (is_results_id (codes options.results_id))) [
    | inr wrong ↦ rw wrong (unsupported_characters, refl)
    | inl named ↦
        elim (Bool-cases (not options.new_window_ack || not options.network_reassociated_ack)) [
          | inl wrong ↦ rw (named, wrong) (not_acknowledged, refl)
          | inr acked ↦ elim (Bool-cases (O.status == "")) [
            | inr wrong ↦ rw (named, acked, wrong) (unclean_worktree, refl)
            | inl clean ↦ rw (named, acked, clean) (no_environment, ground arith)
          ]
        ]
  ]

  refused-IsRefused : (stop : Stop) → IsRefused (refused O options stop)
  refused-IsRefused stop = (refl, refl, λ h. absurd (ground (arith, h)))

  -- If the results id is plain, both acknowledgements are given, the worktree is clean and the
  -- environment loads, `main` runs the steps of `pipeline_commands` in order, each with its
  -- command, up to the first that does not return 0, which is the one the error names; without
  -- such a step it runs all of them and ends well. Otherwise no step runs, no manifest is written
  -- and it ends with an error.
  pub main-IsRun : (w : O.World) → IsRun O options (is_allowed O options) (main O options w).1
  main-IsRun w = elim (Bool-cases (is_allowed O options)) [
    | inl allowed ↦
        let commands = pipeline_commands options (first_of 7 O.head) in
        let (steps, all, said) = run_steps-IsExecution O options w [] none commands in
        rw (allowed, main-allowed w allowed, all) said
    | inr forbidden ↦
        let (stop, stopped) = main-refused w forbidden in
        rw (forbidden, stopped) (refused-IsRefused stop)
  ]

  -- A manifest that `main` writes holds six steps, the first six that it ran, and each of them
  -- returned 0: it is never written behind a failed step, nor with the steps of the seal.
  pub main-IsManifest :
      (w : O.World) (manifest : Manifest)
      → (main O options w).1.written ≡ some manifest
      → IsManifest 6 manifest (main O options w).1.records
  unfolding pipeline_commands
  main-IsManifest w manifest h = elim (Bool-cases (is_allowed O options)) [
    | inl allowed ↦
        let tag = first_of 7 O.head in
        rw (main-allowed w allowed) (
          written_first O options w [] manifest
            (evidence_commands options ++ confirmatory_analysis options tag ∷ [])
            (wire_analysis options tag).1 (seal_commands options) tt (evidence-IsOther options tag)
            (seal-IsOther options) (rw (main-allowed w allowed) at h))
    | inr forbidden ↦
        let (stop, stopped) = main-refused w forbidden in absurd (ground (arith, rw stopped at h))
  ]
