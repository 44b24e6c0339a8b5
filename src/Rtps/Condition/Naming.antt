-- ===== src/Rtps/Condition/Naming.antt =====
-- `CONDITION_RE.search` on a file name. The digits are ASCII; the pattern needs no backtracking,
-- since what follows each part cannot begin inside it.
use Prim.Native.Char.{code}
use qos_extended_mros2_esp.Base.{
  ℕ, ◌+◌, ◌-◌, ◌*◌, String, Bool, true, false, ◌&&◌, Option, none, some, leb, ◌>>=◌, ◌≡◌, refl,
}
use qos_extended_mros2_esp.Base.Text.{strip_prefix}

-- The alternatives of one group, tried in order.
either_prefix : String → String → String → Option (String × String)
unfolding strip_prefix
either_prefix a b s = elim (strip_prefix a s) [
  | some rest ↦ some (a, rest)
  | none ↦ elim (strip_prefix b s) [ some rest ↦ some (b, rest) | none ↦ none ]
]

-- `(\d+)pct_`: the flag says that a digit was read. The value is that of `int(match.group(2))`.
percent : Bool → ℕ → String → Option (ℕ × String)
unfolding strip_prefix
percent seen acc String.[] = none
percent seen acc (String.◌∷◌ c s) = elim (leb b'0' (code c) && leb (code c) b'9') [
  | true ↦ percent true (acc * 10 + (code c - b'0')) s
  | false ↦ elim seen [
    | false ↦ none
    | true ↦ elim (strip_prefix "pct_" (String.◌∷◌ c s)) [
      | none ↦ none
      | some rest ↦ some (acc, rest)
    ]
  ]
]

-- `CONDITION_RE.match` at the start of a text.
condition_at : String → Option (String × ℕ × String)
unfolding either_prefix percent
condition_at s = do
  rest ← strip_prefix "round4_transport_" s
  (qos, behind_qos) ← either_prefix "reliable" "best_effort" rest
  digits ← strip_prefix "_" behind_qos
  (loss, behind_loss) ← percent false 0 digits
  (direction, end) ← either_prefix "host_to_board" "board_to_host" behind_loss
  some (qos, loss, direction)

-- `condition_from_path`, of `path.name`. `none` is the `ValueError`.
unfoldable pub condition_from_path : String → Option (String × ℕ × String)
unfolding condition_at
condition_from_path String.[] = none
condition_from_path (String.◌∷◌ c s) = elim (condition_at (String.◌∷◌ c s)) [
  | some condition ↦ some condition
  | none ↦ condition_from_path s
]

condition_test :
    condition_from_path "a_round4_transport_best_effort_15pct_board_to_host_2.pcapng"
    ≡ some ("best_effort", 15, "board_to_host")
unfolding condition_from_path
condition_test = refl
