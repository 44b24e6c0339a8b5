-- ===== src/Pipeline/Commands.antt =====
-- `pipeline_commands`: the name and the command of each step. The paths are the resolved ones, as
-- texts; the root is not `/` itself and the results id is not `.` or `..`.
use qos_extended_mros2_esp.Base.{◌<>◌, String, Bool, List, [], ◌∷◌, ◌++◌}

-- The arguments of the script, and `sys.executable`.
pub record Options : Type 0 where
  pub python : String
  pub project_root : String
  pub firmware_set : String
  pub results_id : String
  pub serial_port : String
  pub board_ip : String
  pub interface : String
  pub new_window_ack : Bool
  pub network_reassociated_ack : Bool

-- `directory / part`
abbrev pub join_path : String → String → String
join_path directory part = directory <> "/" <> part

abbrev pub results_of : Options → String
results_of options =
    join_path (join_path options.project_root "results/experiments") options.results_id

-- The arguments with which a step runs one of the scripts.
abbrev pub script : Options → String → List String → List String
script options name arguments =
    options.python
    ∷ join_path (join_path options.project_root "scripts/experiment") name
    ∷ arguments

abbrev pub board_arguments : Options → List String → List String
board_arguments options more =
    "--serial-port" ∷ options.serial_port ∷ "--board-ip" ∷ options.board_ip ∷ "--interface"
    ∷ options.interface ∷ more

abbrev pub audit_of : Options → String
audit_of options = join_path (results_of options) "analysis/formal_audit_report.json"

abbrev pub window_of : Options → String
window_of options = join_path (results_of options) "window_manifest.json"

-- The steps up to the one behind which the manifest is written.
abbrev pub evidence_commands : Options → List (String × List String)
evidence_commands options =
    (
      "verify_firmware_set_seal",
      script options "verify_result_tree_seal.py" (options.firmware_set ∷ []),
    )
    ∷ (
      "independent_window_smoke",
      script options "run_p4_smoke_gates.py" (
          "--firmware-set"
          ∷ options.firmware_set
          ∷ "--results-id"
          ∷ options.results_id
          ∷ board_arguments options ("--new-window-ack" ∷ "--network-reassociated-ack" ∷ [])),
    )
    ∷ (
      "formal_collection",
      script options "run_p4_formal.py" (
          "--firmware-set"
          ∷ options.firmware_set
          ∷ "--results-id"
          ∷ options.results_id
          ∷ "--window-manifest"
          ∷ window_of options
          ∷ board_arguments options []),
    )
    ∷ (
      "formal_audit",
      script options "audit_p4_formal.py" (results_of options ∷ "--output" ∷ audit_of options ∷ []),
    )
    ∷ []

abbrev pub confirmatory_analysis : Options → String → String × List String
confirmatory_analysis options analysis_tag = (
  "confirmatory_analysis",
  script options "analyze_p4_complete.py" (
      results_of options
      ∷ "--audit-report"
      ∷ audit_of options
      ∷ "--output-dir"
      ∷ join_path (results_of options) ("analysis/confirmatory_" <> analysis_tag)
      ∷ "--bootstrap-samples"
      ∷ "10000"
      ∷ "--seed"
      ∷ "20260715"
      ∷ []),
)

abbrev pub wire_analysis : Options → String → String × List String
wire_analysis options analysis_tag = (
  "wire_analysis",
  script options "analyze_p4_wire.py" (
      results_of options
      ∷ "--audit-report"
      ∷ audit_of options
      ∷ "--window-manifest"
      ∷ window_of options
      ∷ "--board-ip"
      ∷ options.board_ip
      ∷ "--output-dir"
      ∷ join_path (results_of options) ("analysis/wire_" <> analysis_tag)
      ∷ []),
)

abbrev pub seal_commands : Options → List (String × List String)
seal_commands options =
    ("seal_result_tree", script options "seal_result_tree.py" (results_of options ∷ []))
    ∷ (
      "verify_result_tree_seal",
      script options "verify_result_tree_seal.py" (results_of options ∷ []),
    )
    ∷ []

unfoldable pub pipeline_commands : Options → String → List (String × List String)
pipeline_commands options analysis_tag =
    evidence_commands options
    ++ confirmatory_analysis options analysis_tag
      ∷ wire_analysis options analysis_tag
      ∷ seal_commands options
