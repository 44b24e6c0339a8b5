-- ===== src/Pipeline/Run.antt =====
-- `main`: the tests before the first step, and the loop over the steps. A `SystemExit` is an error
-- value. Time stamps and messages are left out.
use qos_extended_mros2_esp.Base.{
  ℕ, zero, suc, String, Bool, true, false, not, ◌&&◌, ◌||◌, Option, none, some, List, [], ◌∷◌, ◌++◌,
  leb, eqb, if◌then◌else◌, ◌==◌, string_eq,
}
use qos_extended_mros2_esp.Base.Int.{ℤ, pos, int_eq}
use qos_extended_mros2_esp.Base.Result.{Result, ok, err}
use qos_extended_mros2_esp.Base.Text.{codes}
use qos_extended_mros2_esp.Pipeline.Commands.{Options, pipeline_commands}

-- What `git status --porcelain` and `git rev-parse HEAD` print, stripped, whether the environment of the
-- toolchain could be loaded, and one run of a command with its return code.
pub record Outside : Type 1 where
  pub World : Type 0
  pub status : String
  pub head : String
  pub environment : Bool
  pub run : List String → World → World × ℤ

-- `command_record`
pub record Step : Type 0 where
  pub name : String
  pub command : List String
  pub returncode : ℤ

pub record Manifest : Type 0 where
  pub harness_commit : String
  pub firmware_set : String
  pub results_id : String
  pub steps : List Step

pub data Stop : Type 0 where
  unsupported_characters : Stop
  not_acknowledged : Stop
  unclean_worktree : Stop
  no_environment : Stop
  stopped_at : String → ℤ → Stop

-- The records of the steps that ran, the manifest if one was written, and how the run ended.
pub record Execution : Type 0 where
  pub records : List Step
  pub written : Option Manifest
  pub result : Result Stop (Unit {0})

-- `[A-Za-z0-9_.-]`
abbrev pub is_plain : ℕ → Bool
is_plain c =
    (leb 48 c && leb c 57)
    || (leb 65 c && leb c 90)
    || (leb 97 c && leb c 122)
    || eqb c 95
    || eqb c 46
    || eqb c 45

abbrev pub all_plain : List ℕ → Bool
all_plain [] = true
all_plain (c ∷ cs) = is_plain c && all_plain cs

abbrev pub is_results_id : List ℕ → Bool
is_results_id [] = false
is_results_id (c ∷ cs) = is_plain c && all_plain cs

-- `text[:n]`
abbrev pub first_of : ℕ → String → String
first_of n String.[] = String.[]
first_of zero (String.◌∷◌ c s) = String.[]
first_of (suc n) (String.◌∷◌ c s) = String.◌∷◌ c (first_of n s)

module _ (O : Outside) (options : Options) where
  abbrev pub manifest_of : List Step → Manifest
  manifest_of steps = record {
    harness_commit = O.head;
    firmware_set = options.firmware_set;
    results_id = options.results_id;
    steps = steps;
  }

  -- The loop of `main`, with the records and the manifest so far.
  unfoldable pub run_steps :
      O.World → List Step → Option Manifest → List (String × List String) → O.World × Execution
  run_steps w records written [] =
      (w, record { records = records; written = written; result = ok tt })
  run_steps w records written ((name, command) ∷ commands) =
      let (w1, returncode) = O.run command w in
      let added =
        records ++ record { name = name; command = command; returncode = returncode } ∷ [] in
      let rest =
        run_steps w1 added (if name == "wire_analysis" then some (manifest_of added) else written)
          commands in
      if returncode == pos 0 then rest else (
        w1,
        record { records = added; written = written; result = err (stopped_at name returncode) },
      )

  abbrev pub refused : Stop → Execution
  refused stop = record { records = []; written = none; result = err stop }

  unfoldable pub main : O.World → O.World × Execution
  main w =
      let ran = run_steps w [] none (pipeline_commands options (first_of 7 O.head)) in
      if not (is_results_id (codes options.results_id))
      then (w, refused unsupported_characters)
      else if not options.new_window_ack || not options.network_reassociated_ack
      then (w, refused not_acknowledged)
      else if not (O.status == "")
      then (w, refused unclean_worktree)
      else if not O.environment
      then (w, refused no_environment)
      else ran
