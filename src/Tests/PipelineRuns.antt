-- ===== src/Tests/PipelineRuns.antt =====
-- Runs of the P4 pipeline, as run_p4_pipeline.py makes them.
use native.Mathlib.Decide.{ℕ_discrete}
use qos_extended_mros2_esp.Base.{
  ℕ, suc, ◌≡◌, refl, true, none, some, [], ◌∷◌, map, take, eqb, if◌then◌else◌, string_eq,
}
use qos_extended_mros2_esp.Base.Int.{pos, int_eq}
use qos_extended_mros2_esp.Base.Result.{ok}
use qos_extended_mros2_esp.Pipeline.{
  Options, pipeline_commands, Outside, Execution, manifest_of, run_steps, main,
}
use qos_extended_mros2_esp.Pipeline.Laws.{IsManifest}
use qos_extended_mros2_esp.Pipeline.Release.{is_allowed, IsRun, main-IsRun, main-IsManifest}

abbrev options : Options
options = record {
  python = "python3";
  project_root = "/repo";
  firmware_set = "/repo/firmware";
  results_id = "p4_window-1";
  serial_port = "/dev/ttyUSB0";
  board_ip = "192.0.2.1";
  interface = "eth1";
  new_window_ack = true;
  network_reassociated_ack = true;
}

-- The world counts the commands; one of them fails.
abbrev failing_at : ℕ → Outside
failing_at n = record {
  World = ℕ;
  status = "";
  head = "0123456789abcdef";
  environment = true;
  run = λ command w. (suc w, if eqb w n then pos 1 else pos 0);
}

run_failing_at : ℕ → Execution
unfolding main pipeline_commands run_steps string_eq int_eq ℕ_discrete
run_failing_at n = (main (failing_at n) options 0).1

-- The seal fails: the manifest is there, with the six steps before it.
seal_fails :
    (main (failing_at 6) options 0).1.written
    ≡ some (manifest_of (failing_at 6) options (take 6 (run_failing_at 6).records))
unfolding run_failing_at
seal_fails = refl

main-IsManifest_example :
    IsManifest 6
      (manifest_of (failing_at 6) options (take 6 (run_failing_at 6).records))
      (main (failing_at 6) options 0).1.records
main-IsManifest_example =
    main-IsManifest (failing_at 6) options 0
      (manifest_of (failing_at 6) options (take 6 (run_failing_at 6).records)) seal_fails

main-IsRun_example :
    IsRun
      (failing_at 2)
      options
      (is_allowed (failing_at 2) options)
      (main (failing_at 2) options 0).1
main-IsRun_example = main-IsRun (failing_at 2) options 0

collection_fails :
    map (λ step. step.name) (run_failing_at 2).records
    ≡ "verify_firmware_set_seal" ∷ "independent_window_smoke" ∷ "formal_collection" ∷ []
unfolding run_failing_at
collection_fails = refl

collection_leaves_no_manifest : (run_failing_at 2).written ≡ none
unfolding run_failing_at
collection_leaves_no_manifest = refl

none_fails : (run_failing_at 8).result ≡ ok tt
unfolding run_failing_at
none_fails = refl
