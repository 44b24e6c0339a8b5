-- ===== src/Lib.antt =====
-- A verification library for the evidence scripts of qos-extended-mros2-esp32, which turn packet
-- captures, board logs and result trees of the QoS experiments into checked evidence.
--
-- The parts, and the file of the repository that each follows:
--   * Rtps follows scripts/experiment/reconstruct_rtps_app_samples.py. Lines of `tshark` output
--     become rows (Rtps/Analyze/Pipeline: `tshark_rows`), rows become events (Rtps/Fields,
--     Rtps/SequenceSet, Rtps/Classify: `parsed_ints`, `decode_sequence_set`, `classify_row`),
--     events get run numbers (Rtps/Runs: `guid_run_map`, `assign_runs`), and each run and flow is
--     counted and its requests are linked to later DATA (Rtps/Times, Rtps/Summary, Rtps/Links:
--     `summarize_flow`, `reconstruct_nack_links`). Rtps/Condition totals the runs under the
--     condition that the file name states (`condition_from_path`, `condition_summary`), and
--     Rtps/Analyze composes all of it (`analyze`).
--   * Probe follows scripts/experiment/telemetry_control_probe.py: the record in which a board
--     states its processor load, parsed and checked (`validate_control_probe`).
--   * Seal follows scripts/experiment/seal_result_tree.py and verify_result_tree_seal.py: Seal/Release
--     writes the manifest and the seal of a result tree (`inventory`, `main`), and Seal/Verify reads
--     them back (`read_manifest`, `verify`). The two meet in Seal/RoundTrip.
--   * Compare follows scripts/experiment/three_system_common.py: Compare/Serial reads the serial log
--     of one run (`_compare_line`, `_fields`, `_integer`, the loops of `parse_compare_serial`), and
--     Compare/Run tests its records and makes the report (`parse_compare_serial`). The report lists
--     its errors in the order in which they are found, before they become a sorted set. Compare/Schedule is the
--     schedule of visits (`generate_schedule`, `validate_schedule`); the order into which the code
--     shuffles each superblock's systems is a parameter.
--   * Board follows scripts/experiment/validate_seven_qos_mechanism_board_log.py: Board/Marker reads
--     the markers of a log (`parse_marker`, `integer`), Board/Cases holds the tests of each kind of
--     case, and Board/Log those that every log takes (`validate_log`).
--   * Recovery follows scripts/experiment/p4_reset_recovery.py: Recovery/Reset resets a board until
--     its network answers (`board_reachable`, `recover_board_network`) and repeats that as a
--     qualification (`qualify_reset_recovery`). The clock, `ping` and the reset command are a
--     parameter, with a world that goes on.
--   * Telemetry follows scripts/experiment/validate_benchmark_telemetry_smoke.py: Telemetry/Record
--     reads the records of a log (`parse_record`), Telemetry/Contract tests the delivery that they
--     state (`validate_delivery_contract`), and Telemetry/Raw, Parts and Log test the whole log and make its
--     summary (`validate`), with the probe of the part Probe. Telemetry/Crc is the CRC-32 of `zlib`.
--   * Campaign follows scripts/experiment/run_seven_qos_mechanism_campaign.py. Campaign/Store is what
--     the output holds of a case, its attempts and its receipt (`CaseEntry`), with the readings of it
--     (`read_status`, `accepted_attempt`, `record_receipt`, `verify_receipt`, `fatal_attempt`);
--     Campaign/Environment is `check_environment`, Campaign/Rebuild `rebuild_ledgers`, and
--     Campaign/Endings and Run `main`, with a function for each of its loops. The machine and the runners are a
--     state and two functions on it (`Surroundings`). A case has as many rounds as it has attempts left,
--     so the loops need no fuel.
--   * Protocol follows scripts/experiment/validate_seven_qos_protocol.py (Protocol/Document, Cells
--     with `validate_performance`, Cases with `validate_deterministic`) and
--     scripts/experiment/generate_seven_qos_deterministic_protocol.py (Protocol/Expand:
--     `expand_cases` and the schedule of `main`).
--   * Endpoint follows scripts/experiment/validate_qos_compatibility_host_probe.py (Endpoint/Host) and
--     scripts/experiment/validate_qos_compatibility_board_probe.py (Endpoint/Board), which test the logs
--     of the two ends of a compatibility case.
--   * H2b follows scripts/experiment/h2b_formal_common.py: H2b/Cells names the cells of the campaign
--     (`condition_for`, `expected_injection`), and H2b/Schedule tests the order in which they are
--     visited (`validate_schedule`).
--   * Pipeline follows scripts/experiment/run_p4_pipeline.py: Pipeline/Commands lists the steps of a
--     release (`pipeline_commands`), and Pipeline/Run runs them one behind the other (`main`). What
--     `git` prints and what a command returns are a parameter.
--   * Base holds what Python gives the scripts: integers with floor division, splitting and the
--     order of texts, `int` and `float` of a text, dicts as association lists in order of
--     insertion, stable sorting, and results for code that raises.
--   * Tests holds runs on concrete input.
--
-- How the source is read. An exception ends a function, so a function that raises returns an
-- Option or a Result, whose error stands for the exception without its text. A dict with fixed
-- keys is a record; a dict that a loop fills is an association list. The events, which
-- `assign_runs` changes in place, come back as a new list. Loops are structural recursion; two
-- take fuel. The digits of a number (`decimal` in Base/Number) have one more than the number,
-- beyond which more fuel changes nothing. The wait of `board_reachable` has one more than its
-- seconds, which is enough with a clock that a sleep of a second moves on by a second. Times are
-- natural numbers of nanoseconds, the unit of the ninth decimal that `tshark` prints, where the
-- code has floats: no rounding is modelled, differences of times keep their order, medians are
-- doubled so that they stay whole, and a text with more than nine decimals, an exponent or a
-- sign is not read as a time. Digits, letter case and white space are those of ASCII and
-- Latin-1.
--
-- Taken as given: the output of `tshark` (the lines are an argument), the SHA-256 digest of a
-- capture (an argument) and of bytes (a parameter), UTF-8, and reading and writing of CSV and
-- JSON (a manifest and a seal are the values that are read back). A path of the manifest names
-- the file with that very path. The rows that a campaign's frozen protocol holds and the drafts
-- of the protocol are values of the types that they have. Printing, the Markdown report, the
-- command lines and the process that runs `tshark` are not modelled.
pub mod Base
pub mod Rtps
pub mod Probe
pub mod Seal
pub mod Compare
pub mod Board
pub mod Telemetry
pub mod Campaign
pub mod Protocol
pub mod Endpoint
pub mod Pipeline
pub mod H2b
pub mod Recovery
pub mod Tests
