-- ===== src/Tests/EndpointRuns.antt =====
-- The two ends of a compatibility case: the host publishes, and the board subscribes.
use native.Mathlib.Decide.{ℕ_discrete}
use qos_extended_mros2_esp.Base.{◌≡◌, refl, String, true, List, [], ◌∷◌, ◌<>◌, string_eq, option_eq}
use qos_extended_mros2_esp.Base.Fields.{fields_from, check_fields, integer_or_minus_one}
use qos_extended_mros2_esp.Base.Int.{pos, negsuc, int_eq}
use qos_extended_mros2_esp.Base.Number.{int_base_10}
use qos_extended_mros2_esp.Base.Result.{ok}
use qos_extended_mros2_esp.Base.Text.{
  lower, lstrip, rstrip, strip_prefix, words, words_from, partition,
}
use qos_extended_mros2_esp.Board.{occurs}
use qos_extended_mros2_esp.Endpoint.{
  publisher, subscriber, endpoint_fields, the_only_line, HostSummary, read_host, check_host,
  host_records, validate_host, Settings, BoardSummary, read_board, check_board, board_records,
  validate_board, ansi_step, remove_ansi,
}
use qos_extended_mros2_esp.Endpoint.Agreement.{IsHost, IsBoard, validate_host-validate_board}

abbrev settings : Settings
settings = record {
  case_id = "c";
  reliability = "reliable";
  durability = "volatile";
  deadline_ms = "100";
  liveliness_lease_ms = "500";
}

abbrev host_log : List String
host_log =
    "QOS_HOST_CONFIG schema=1 case_id=c role=publisher expected_match=1 message_count=4"
    ∷ "QOS_HOST_FINAL schema=1 case_id=c role=publisher expected_match=1 status=PASS actual_match=1 max_match_count=1 tx=4 rx=0"
    ∷ []

abbrev config_line : String → String
config_line role =
    "QOS_BOARD_CONFIG schema=1 case_id=c role=" <> role
    <> " reliability=reliable durability=volatile deadline_ms=100 liveliness=automatic liveliness_lease_ms=500 expected_match=1"

abbrev board_log : List String
board_log =
    config_line "subscriber"
    ∷ "QOS_BOARD_LOCAL_READY schema=1 case_id=c"
    ∷ "QOS_BOARD_FINAL schema=1 case_id=c role=subscriber expected_match=1 status=PASS actual_match=1 tx_attempts=0 tx_accepted=0 rx=3 "
    ∷ []

abbrev host_summary : HostSummary
host_summary = record { actual_match = pos 1; max_match_count = pos 1; tx = pos 4; rx = pos 0 }

abbrev board_summary : BoardSummary
board_summary = record {
  actual_match = pos 1;
  tx_attempts = pos 0;
  tx_accepted = pos 0;
  rx = pos 3;
}

host_passes : validate_host host_log "c" publisher true ≡ ok host_summary
unfolding validate_host host_records endpoint_fields the_only_line read_host check_host fields_from
    check_fields integer_or_minus_one int_base_10 string_eq option_eq int_eq strip_prefix words
    words_from partition ℕ_discrete
host_passes = refl

board_passes : validate_board board_log settings subscriber true ≡ ok board_summary
unfolding validate_board board_records endpoint_fields the_only_line read_board check_board
    ansi_step remove_ansi fields_from check_fields integer_or_minus_one int_base_10 string_eq
    option_eq int_eq lower lstrip rstrip strip_prefix words words_from partition occurs ℕ_discrete
board_passes = refl

validate_host-validate_board_example :
    IsHost publisher true host_summary × IsBoard subscriber true board_summary × (pos 1 ≡ pos 1)
validate_host-validate_board_example =
    validate_host-validate_board host_log board_log settings publisher true host_summary
      board_summary host_passes board_passes

-- A board that publishes and reports no counter passes: each is read as -1, as the number of
-- messages is.
abbrev silent_log : List String
silent_log =
    config_line "publisher"
    ∷ "QOS_BOARD_LOCAL_READY schema=1 case_id=c"
    ∷ "QOS_BOARD_FINAL schema=1 case_id=c role=publisher expected_match=1 status=PASS actual_match=1"
    ∷ []

silent_passes :
    validate_board silent_log settings publisher true
    ≡ ok (record {
      actual_match = pos 1;
      tx_attempts = negsuc 0;
      tx_accepted = negsuc 0;
      rx = negsuc 0;
    })
unfolding validate_board board_records endpoint_fields the_only_line read_board check_board
    ansi_step remove_ansi fields_from check_fields integer_or_minus_one int_base_10 string_eq
    option_eq int_eq lower lstrip rstrip strip_prefix words words_from partition occurs ℕ_discrete
silent_passes = refl
