-- ===== src/Endpoint/Agreement.antt =====
-- The two ends of a case that passes on both agree.
use qos_extended_mros2_esp.Base.{
  ◌≡◌, subst, sym, ◌∙◌, String, Bool, true, false, List, string_eq, option_eq, arith,
}
use qos_extended_mros2_esp.Base.Int.{ℤ, pos, ◌≤ℤ◌, int_eq}
use qos_extended_mros2_esp.Base.Result.{ok, >>=-eq-ok, ok_injective}
use qos_extended_mros2_esp.Endpoint.{
  Role, publisher, subscriber, HostSummary, check_host, host_records, read_host, validate_host,
  board_records, read_board, counter, Settings, BoardSummary, check_board, validate_board,
}

abbrev pub other_role : Role → Role
other_role publisher = subscriber
other_role subscriber = publisher

-- What the host's counters say, for its role and a match that is expected or not.
abbrev pub IsHost : Role → Bool → HostSummary → Type 0
IsHost role false host =
    (host.actual_match ≡ pos 0)
    × (host.max_match_count ≤ℤ pos 0)
    × (host.tx ≡ pos 0)
    × (host.rx ≡ pos 0)
IsHost publisher true host =
    (host.actual_match ≡ pos 1)
    × (pos 1 ≤ℤ host.max_match_count)
    × (pos 0 ≤ℤ host.tx)
    × (pos 0 ≤ℤ host.rx)
IsHost subscriber true host =
    (host.actual_match ≡ pos 1)
    × (pos 1 ≤ℤ host.max_match_count)
    × (pos 0 ≤ℤ host.tx)
    × (pos 1 ≤ℤ host.rx)

-- What the board's counters say.
abbrev pub IsBoard : Role → Bool → BoardSummary → Type 0
IsBoard role false board =
    (board.actual_match ≡ pos 0)
    × (board.tx_attempts ≡ pos 0)
    × (board.tx_accepted ≡ pos 0)
    × (board.rx ≡ pos 0)
IsBoard publisher true board =
    (board.actual_match ≡ pos 1) × (board.tx_accepted ≡ board.tx_attempts)
IsBoard subscriber true board = (board.actual_match ≡ pos 1) × (pos 1 ≤ℤ board.rx)

check_host-IsHost :
    (role : Role) (expected : Bool) (messages : ℤ) (host : HostSummary) {u : Unit {0}}
    → check_host role expected messages host ≡ ok u
    → IsHost role expected host
unfolding check_host
check_host-IsHost role false messages host h = ground (arith, h)
check_host-IsHost publisher true messages host h = ground (arith, h)
check_host-IsHost subscriber true messages host h = ground (arith, h)

check_board-IsBoard :
    (role : Role) (expected : Bool) (messages : ℤ) (board : BoardSummary) {u : Unit {0}}
    → check_board role expected messages board ≡ ok u
    → IsBoard role expected board
unfolding check_board
check_board-IsBoard role false messages board h = ground (arith, h)
check_board-IsBoard publisher true messages board h = ground (arith, h)
check_board-IsBoard subscriber true messages board h = ground (arith, h)

validate_host-IsHost :
    (lines : List String) (case_id : String) (role : Role) (expected : Bool) (host : HostSummary)
    → validate_host lines case_id role expected ≡ ok host
    → IsHost role expected host
unfolding validate_host
validate_host-IsHost lines case_id role expected host h =
    let (records, _, h1) = >>=-eq-ok (host_records lines case_id role expected) _ h in
    let (found, _, h2) = >>=-eq-ok (read_host records.1) _ h1 in
    let (messages, _, h3) = >>=-eq-ok (counter records.0 "message_count") _ h2 in
    let (_, checked, h4) = >>=-eq-ok (check_host role expected messages found) _ h3 in
    subst (IsHost role expected) (ok_injective h4)
      (check_host-IsHost role expected messages found checked)

validate_board-IsBoard :
    (lines : List String) (settings : Settings) (role : Role) (expected : Bool)
    (board : BoardSummary)
    → validate_board lines settings role expected ≡ ok board
    → IsBoard role expected board
unfolding validate_board
validate_board-IsBoard lines settings role expected board h =
    let (records, _, h1) = >>=-eq-ok (board_records lines settings role expected) _ h in
    let (found, _, h2) = >>=-eq-ok (read_board records.1) _ h1 in
    let (messages, _, h3) = >>=-eq-ok (counter records.0 "message_count") _ h2 in
    let (_, checked, h4) = >>=-eq-ok (check_board role expected messages found) _ h3 in
    subst (IsBoard role expected) (ok_injective h4)
      (check_board-IsBoard role expected messages found checked)

actual-eq :
    (role : Role) (expected : Bool) (host : HostSummary) (board : BoardSummary)
    → IsHost role expected host
    → IsBoard (other_role role) expected board
    → host.actual_match ≡ board.actual_match
actual-eq role false host board (h, _, _, _) (k, _, _, _) = h ∙ sym k
actual-eq publisher true host board (h, _, _, _) (k, _) = h ∙ sym k
actual-eq subscriber true host board (h, _, _, _) (k, _) = h ∙ sym k

-- Where the logs of both ends of a case pass, one of them the publisher and the other the
-- subscriber, both saw a match exactly when it was expected. Without one, the host counted no
-- matched endpoint and neither sent or received anything. With one, the host counted at least
-- one matched endpoint, the subscriber received at least one message, whichever end it is, a board
-- that publishes had every attempt accepted, and no counter of the host is negative.
pub validate_host-validate_board :
    (lines log : List String) (settings : Settings) (role : Role) (expected : Bool)
    (host : HostSummary) (board : BoardSummary)
    → validate_host lines settings.case_id role expected ≡ ok host
    → validate_board log settings (other_role role) expected ≡ ok board
    → IsHost role expected host
      × IsBoard (other_role role) expected board
      × (host.actual_match ≡ board.actual_match)
validate_host-validate_board lines log settings role expected host board h k =
    let is_host = validate_host-IsHost lines settings.case_id role expected host h in
    let is_board = validate_board-IsBoard log settings (other_role role) expected board k in
    (is_host, is_board, actual-eq role expected host board is_host is_board)
