-- ===== src/Endpoint/Board.antt =====
-- `validate` of the board's probe.
use Prim.Native.Char.{Char, code}
use qos_extended_mros2_esp.Base.{
  ◌<>◌, String, Bool, not, ◌&&◌, ◌||◌, List, [], ◌∷◌, map, any, leb, eqb, ◌==◌, string_eq,
  option_eq, if◌then◌else◌, some,
}
use qos_extended_mros2_esp.Base.Dict.{lookup}
use qos_extended_mros2_esp.Base.Fields.{Fields, check_fields}
use qos_extended_mros2_esp.Base.Int.{ℤ, pos, leb_ℤ, int_eq}
use qos_extended_mros2_esp.Base.Result.{Result, ok, ◌>>=◌, ◌>>◌, raise_if}
use qos_extended_mros2_esp.Base.Text.{starts_with, strip, lower}
use qos_extended_mros2_esp.Board.{occurs}
use qos_extended_mros2_esp.Endpoint.Records.{
  EndpointError, crashed, error_record, field_differs, wrong_status, wrong_match, unsent,
  nothing_received, unexpected_traffic, Role, role_text, is_publisher, bit_text, bit,
  endpoint_fields, with_prefix, the_only_line, counter,
}

-- Where a match of `ANSI_RE` stands: before it, behind the escape, or in the numbers.
pub data AnsiState : Type 0 where
  unstyled escaped numbers : AnsiState

abbrev one : Char → String
one c = String.◌∷◌ c String.[]

-- One character: the text that is certain, the state, and the text of a match that is begun.
unfoldable pub ansi_step : AnsiState → String → Char → String × (AnsiState × String)
ansi_step state begun c =
    let failed : String × (AnsiState × String) = (begun <> one c, (unstyled, "")) in
    if eqb (code c) 27 then (begun, (escaped, one c)) else elim state [
      | unstyled ↦ (one c, (unstyled, ""))
      | escaped ↦ if eqb (code c) b'[' then ("", (numbers, begun <> one c)) else failed
      | numbers ↦
          if (leb b'0' (code c) && leb (code c) b'9') || eqb (code c) b';'
          then ("", (numbers, begun <> one c))
          else (if eqb (code c) b'm' then ("", (unstyled, "")) else failed)
    ]

unfoldable pub remove_ansi : AnsiState → String → String → String
remove_ansi state begun String.[] = begun
remove_ansi state begun (String.◌∷◌ c s) =
    let step = ansi_step state begun c in step.0 <> remove_ansi step.1.0 step.1.1 s

-- `ANSI_RE.sub("", line).strip()`
abbrev pub clean_line : String → String
clean_line line = strip (remove_ansi unstyled "" line)

-- A marker stands in a line, since it has no line break.
abbrev pub has_crash : List String → Bool
has_crash clean =
    any (λ line. occurs "watchdog" (lower line) || occurs "backtrace:" (lower line)) clean

-- What the case has besides the role and the match.
pub record Settings : Type 0 where
  pub case_id : String
  pub reliability : String
  pub durability : String
  pub deadline_ms : String
  pub liveliness_lease_ms : String

pub record BoardSummary : Type 0 where
  pub actual_match : ℤ
  pub tx_attempts : ℤ
  pub tx_accepted : ℤ
  pub rx : ℤ

abbrev config_fields : Settings → Role → Bool → List (String × String)
config_fields settings role expected =
    ("schema", "1")
    ∷ ("case_id", settings.case_id)
    ∷ ("role", role_text role)
    ∷ ("reliability", settings.reliability)
    ∷ ("durability", settings.durability)
    ∷ ("deadline_ms", settings.deadline_ms)
    ∷ ("liveliness", "automatic")
    ∷ ("liveliness_lease_ms", settings.liveliness_lease_ms)
    ∷ ("expected_match", bit_text expected)
    ∷ []

abbrev case_fields : Settings → List (String × String)
case_fields settings = ("schema", "1") ∷ ("case_id", settings.case_id) ∷ []

unfoldable pub read_board : Fields → Result EndpointError BoardSummary
read_board final = do
  actual ← counter final "actual_match"
  attempts ← counter final "tx_attempts"
  accepted ← counter final "tx_accepted"
  rx ← counter final "rx"
  ok record { actual_match = actual; tx_attempts = attempts; tx_accepted = accepted; rx = rx }

-- The tests of the counters.
unfoldable pub check_board : Role → Bool → ℤ → BoardSummary → Result EndpointError (Unit {0})
check_board role expected messages board = do
  raise_if (not (board.actual_match == bit expected)) wrong_match
  raise_if
      (is_publisher role
        && expected
        && (not (board.tx_attempts == messages) || not (board.tx_accepted == messages)))
      unsent
  raise_if (not (is_publisher role) && expected && leb_ℤ board.rx (pos 0)) nothing_received
  raise_if
      (not expected
        && (not (board.tx_attempts == pos 0)
            || not (board.tx_accepted == pos 0)
            || not (board.rx == pos 0)))
      unexpected_traffic

-- The configuration and the final record, with the fields that are expected.
unfoldable pub board_records :
    List String → Settings → Role → Bool → Result EndpointError (Fields × Fields)
board_records lines settings role expected = do
  let clean = map clean_line lines
  raise_if (has_crash clean) crashed
  raise_if (any (λ line. starts_with line "QOS_BOARD_ERROR ") clean) error_record
  config_line ← the_only_line (with_prefix "QOS_BOARD_CONFIG" clean)
  ready_line ← the_only_line (with_prefix "QOS_BOARD_LOCAL_READY" clean)
  final_line ← the_only_line (with_prefix "QOS_BOARD_FINAL" clean)
  config ← endpoint_fields config_line "QOS_BOARD_CONFIG"
  ready ← endpoint_fields ready_line "QOS_BOARD_LOCAL_READY"
  final ← endpoint_fields final_line "QOS_BOARD_FINAL"
  check_fields field_differs config (config_fields settings role expected)
  check_fields field_differs ready (case_fields settings)
  check_fields field_differs final (case_fields settings)
  check_fields field_differs final
      (("role", role_text role) ∷ ("expected_match", bit_text expected) ∷ [])
  raise_if (not (lookup "status" final == some "PASS")) wrong_status
  ok (config, final)

unfoldable pub validate_board :
    List String → Settings → Role → Bool → Result EndpointError BoardSummary
validate_board lines settings role expected = do
  records ← board_records lines settings role expected
  board ← read_board records.1
  messages ← counter records.0 "message_count"
  check_board role expected messages board
  ok board
