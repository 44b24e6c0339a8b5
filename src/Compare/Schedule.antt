-- ===== src/Compare/Schedule.antt =====
-- `generate_schedule` and `validate_schedule`. The shuffle of `random.Random` is an argument: the
-- list into which the systems of each superblock are shuffled.
use qos_extended_mros2_esp.Base.{
  ℕ, zero, suc, ◌+◌, ◌-◌, ◌*◌, String, Bool, true, false, not, ◌&&◌, Option, none, some, List, [],
  ◌∷◌, ◌++◌, map, length, ◌==◌, contains, string_eq, option_eq, nat_eq, if◌then◌else◌, range_from,
}
use qos_extended_mros2_esp.Base.Int.{ℤ, pos, leb_ℤ, int_eq}
use qos_extended_mros2_esp.Base.Order.{sort_with}
use qos_extended_mros2_esp.Base.Result.{Result, ok, err, ◌>>=◌, ◌>>◌, raise_if}
use qos_extended_mros2_esp.Compare.Serial.{system_order}

-- A row of the schedule. A number is what `int` reads, `none` where it raises.
pub record Visit : Type 0 where
  pub block : Option ℤ
  pub visit : Option ℤ
  pub visit_in_block : Option ℤ
  pub system : String
  pub run_start : Option ℤ
  pub run_end : Option ℤ

-- One constructor for each `raise`; `bad_integer` is raised by `int`.
pub data ScheduleError : Type 0 where
  visit_count visits_not_consecutive bad_integer : ScheduleError
  block_size block_systems visit_order wrong_run_start wrong_run_end : ℕ → ScheduleError

-- The inner loop of `generate_schedule`, from a visit and a place in the block on.
unfoldable pub visits_of : ℕ → ℕ → ℕ → List String → List Visit
visits_of block visit place [] = []
visits_of block visit place (system ∷ systems) =
    let run_start = (block - 1) * 10 + 1 in
    record {
      block = some (pos block);
      visit = some (pos (visit + 1));
      visit_in_block = some (pos place);
      system = system;
      run_start = some (pos run_start);
      run_end = some (pos (run_start + 10 - 1));
    }
    ∷ visits_of block (visit + 1) (place + 1) systems

-- The outer loop, from a block on, with the number of blocks left.
unfoldable pub rows_from : (ℕ → List String) → ℕ → ℕ → ℕ → List Visit
rows_from shuffled block visit zero = []
rows_from shuffled block visit (suc blocks) =
    visits_of block visit 1 (shuffled block)
    ++ rows_from shuffled (block + 1) (visit + length (shuffled block)) blocks

unfoldable pub int_of : Option ℤ → Result ScheduleError ℤ
int_of none = err bad_integer
int_of (some n) = ok n

unfoldable pub ints_of_fields : List (Option ℤ) → Result ScheduleError (List ℤ)
ints_of_fields [] = ok []
ints_of_fields (field ∷ fields) =
    let rest = ints_of_fields fields in int_of field >>= λ n. rest >>= λ ns. ok (n ∷ ns)

-- `==` on lists of integers
unfoldable pub same_ints : List ℤ → List ℤ → Bool
same_ints [] [] = true
same_ints [] (y ∷ ys) = false
same_ints (x ∷ xs) [] = false
same_ints (x ∷ xs) (y ∷ ys) = x == y && same_ints xs ys

-- `block_rows`
unfoldable pub in_block : ℕ → List Visit → Result ScheduleError (List Visit)
in_block block [] = ok []
in_block block (row ∷ rows) =
    let rest = in_block block rows in
    int_of row.block >>= λ n. rest >>= λ kept. ok (if n == pos block then row ∷ kept else kept)

abbrev pub all_systems : List String → List String → Bool
all_systems [] ys = true
all_systems (x ∷ xs) ys = contains ys x && all_systems xs ys

-- The innermost loop.
unfoldable pub check_runs : ℕ → ℕ → List Visit → Result ScheduleError (Unit {0})
check_runs block expected_start [] = ok tt
check_runs block expected_start (row ∷ rows) =
    let rest = check_runs block expected_start rows in
    int_of row.run_start >>= λ start.
    raise_if (not (start == pos expected_start)) (wrong_run_start block)
    >> (int_of row.run_end >>= λ end.
        raise_if (not (end == pos (expected_start + 9))) (wrong_run_end block) >> rest)

unfoldable pub check_visits : ℕ → List Visit → Result ScheduleError (Unit {0})
check_visits block block_rows = do
  raise_if (not (length block_rows == 3)) (block_size block)
  let systems = map (λ (row : Visit). row.system) block_rows
  raise_if (not (all_systems systems system_order && all_systems system_order systems))
      (block_systems block)
  places ← ints_of_fields (map (λ (row : Visit). row.visit_in_block) block_rows)
  raise_if (not (same_ints (sort_with leb_ℤ places) (pos 1 ∷ pos 2 ∷ pos 3 ∷ [])))
      (visit_order block)
  check_runs block ((block - 1) * 10 + 1) block_rows

-- The loop over the superblocks, from one on, with the number of those left.
unfoldable pub check_blocks : List Visit → ℕ → ℕ → Result ScheduleError (Unit {0})
check_blocks rows block zero = ok tt
check_blocks rows block (suc blocks) =
    let rest = check_blocks rows (block + 1) blocks in
    in_block block rows >>= λ block_rows. check_visits block block_rows >> rest

unfoldable pub validate_schedule : List Visit → Result ScheduleError (Unit {0})
validate_schedule rows = do
  raise_if (not (length rows == 30)) visit_count
  visits ← ints_of_fields (map (λ (row : Visit). row.visit) rows)
  raise_if (not (same_ints visits (map (λ (n : ℕ). pos n) (range_from 1 30))))
      visits_not_consecutive
  check_blocks rows 1 10

unfoldable pub generate_schedule : (ℕ → List String) → Result ScheduleError (List Visit)
generate_schedule shuffled = do
  let rows = rows_from shuffled 1 0 10
  validate_schedule rows
  ok rows
