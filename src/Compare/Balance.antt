-- ===== src/Compare/Balance.antt =====
-- What a schedule that `validate_schedule` passes holds.
use qos_extended_mros2_esp.Base.{
  ℕ, zero, suc, ◌+◌, ◌-◌, ◌*◌, ◌<◌, ◌≡◌, refl, String, Bool, true, false, not, ◌&&◌, Option, none,
  some, List, [], ◌∷◌, map, length, filter, ◌==◌, string_eq, option_eq, nat_eq, All, All-mono,
  arith, subst, range_from,
}
use qos_extended_mros2_esp.Base.Int.{ℤ, pos, leb_ℤ, int_eq}
use qos_extended_mros2_esp.Base.Order.{sort_with}
use qos_extended_mros2_esp.Base.Result.{ok, raise_if, >>=-eq-ok, raise_if-eq-ok}
use qos_extended_mros2_esp.Compare.Serial.{system_order}
use qos_extended_mros2_esp.Compare.Schedule.{
  Visit, visit_count, visits_not_consecutive, block_size, block_systems, visit_order, int_of,
  ints_of_fields, same_ints, in_block, all_systems, check_runs, check_visits, check_blocks,
  validate_schedule,
}

abbrev pub system_of : Visit → String
system_of row = row.system

abbrev pub count_of : String → List String → ℕ
count_of s systems = length (filter (λ t. s == t) systems)

-- The ten runs of a visit in a superblock.
abbrev pub HasRuns : ℕ → Visit → Type 0
HasRuns block row =
    (row.run_start ≡ some (pos ((block - 1) * 10 + 1)))
    × (row.run_end ≡ some (pos ((block - 1) * 10 + 10)))

-- The visits of a superblock: each system once, all with the same ten runs.
pub record IsBalanced (rows : List Visit) (block : ℕ) : Type 0 where
  pub visits : List Visit
  pub visits_are : in_block block rows ≡ ok visits
  pub once : All (λ s. count_of s (map system_of visits) ≡ 1) system_order
  pub runs : All (HasRuns block) visits

once_each :
    (m u i a b c : String)
    → (m == u) ≡ false
    → (m == i) ≡ false
    → (u == i) ≡ false
    → all_systems (m ∷ u ∷ i ∷ []) (a ∷ b ∷ c ∷ []) ≡ true
    → (count_of m (a ∷ b ∷ c ∷ []) ≡ 1)
      × (count_of u (a ∷ b ∷ c ∷ []) ≡ 1)
      × (count_of i (a ∷ b ∷ c ∷ []) ≡ 1)
once_each m u i a b c mu mi ui h = ground arith

systems_apart :
    (◌==◌ {A = String} "mros2qos" "upstream" ≡ false)
    × (◌==◌ {A = String} "mros2qos" "microros" ≡ false)
    × (◌==◌ {A = String} "upstream" "microros" ≡ false)
unfolding string_eq
systems_apart = (refl, refl, refl)

int_of-eq-ok : (field : Option ℤ) (n : ℤ) → int_of field ≡ ok n → field ≡ some n
unfolding int_of
int_of-eq-ok none n h = absurd (ground arith)
int_of-eq-ok (some m) n h = ground arith

not_eq_int : (a b : ℤ) → not (a == b) ≡ false → a ≡ b
not_eq_int a b h = ground arith

check_runs-All :
    (block start : ℕ) (rows : List Visit) (u : Unit {0})
    → check_runs block start rows ≡ ok u
    → All
        (λ (row : Visit).
          (row.run_start ≡ some (pos start)) × (row.run_end ≡ some (pos (start + 9))))
        rows
unfolding check_runs
check_runs-All block start [] u h = tt
check_runs-All block start (row ∷ rows) u h =
    let (s, first, h1) = >>=-eq-ok (int_of row.run_start) _ h in
    let (_, same, h2) = >>=-eq-ok (raise_if (not (s == pos start)) _) _ h1 in
    let (e, last, h3) = >>=-eq-ok (int_of row.run_end) _ h2 in
    let (_, same_end, h4) = >>=-eq-ok (raise_if (not (e == pos (start + 9))) _) _ h3 in
    (
      (
        subst (λ n. row.run_start ≡ some n) (not_eq_int s _ (raise_if-eq-ok _ _ same))
            (int_of-eq-ok row.run_start s first),
        subst (λ n. row.run_end ≡ some n) (not_eq_int e _ (raise_if-eq-ok _ _ same_end))
            (int_of-eq-ok row.run_end e last),
      ),
      check_runs-All block start rows u h4,
    )

three_visits :
    (visits : List Visit)
    → (length visits == 3) ≡ true
    → all_systems system_order (map system_of visits) ≡ true
    → All (λ s. count_of s (map system_of visits) ≡ 1) system_order
three_visits (a ∷ b ∷ c ∷ []) size h =
    let (mu, mi, ui) = systems_apart in
    let (one, two, three) =
      once_each "mros2qos" "upstream" "microros" a.system b.system c.system mu mi ui h in
    (one, (two, (three, tt)))
three_visits [] size h = absurd (ground (arith, size))
three_visits (a ∷ []) size h = absurd (ground (arith, size))
three_visits (a ∷ b ∷ []) size h = absurd (ground (arith, size))
three_visits (a ∷ b ∷ c ∷ d ∷ more) size h = absurd (ground (arith, size))

not-eq-false : (b : Bool) → not b ≡ false → b ≡ true
not-eq-false b h = ground arith

and_right : (a b : Bool) → (a && b) ≡ true → b ≡ true
and_right a b h = ground arith

check_visits-IsBalanced :
    (rows visits : List Visit) (block : ℕ) (u : Unit {0})
    → in_block block rows ≡ ok visits
    → check_visits block visits ≡ ok u
    → IsBalanced rows block
unfolding check_visits
check_visits-IsBalanced rows visits block u are h =
    let systems = map (λ (row : Visit). row.system) visits in
    let (_, size, h1) = >>=-eq-ok (raise_if (not (length visits == 3)) (block_size block)) _ h in
    let (_, both, h2) =
      >>=-eq-ok
        (raise_if (not (all_systems systems system_order && all_systems system_order systems))
          (block_systems block))
        _ h1 in
    let (places, _, h3) =
      >>=-eq-ok (ints_of_fields (map (λ (row : Visit). row.visit_in_block) visits)) _ h2 in
    let (_, _, h4) =
      >>=-eq-ok
        (raise_if (not (same_ints (sort_with leb_ℤ places) (pos 1 ∷ pos 2 ∷ pos 3 ∷ [])))
          (visit_order block))
        _ h3 in
    let start : (block - 1) * 10 + 1 + 9 ≡ (block - 1) * 10 + 10 = omega arith in
    record {
      visits = visits;
      visits_are = are;
      once =
          three_visits visits (not-eq-false _ (raise_if-eq-ok _ _ size))
            (and_right _ _ (not-eq-false _ (raise_if-eq-ok _ _ both)));
      runs =
          All-mono visits (λ row h. (h.0, subst (λ n. row.run_end ≡ some (pos n)) start h.1))
            (check_runs-All block ((block - 1) * 10 + 1) visits u h4);
    }

check_blocks-IsBalanced :
    (rows : List Visit) (block blocks : ℕ) (u : Unit {0})
    → check_blocks rows block blocks ≡ ok u
    → (k : ℕ) → k < blocks
    → IsBalanced rows (block + k)
unfolding check_blocks
check_blocks-IsBalanced rows block zero u h k lt = absurd (omega arith)
check_blocks-IsBalanced rows block (suc blocks) u h zero lt =
    let (visits, are, h1) = >>=-eq-ok (in_block block rows) _ h in
    let (v, passed, _) = >>=-eq-ok (check_visits block visits) _ h1 in
    let place : block + zero ≡ block = omega arith in
    rw place (check_visits-IsBalanced rows visits block v are passed)
check_blocks-IsBalanced rows block (suc blocks) u h (suc k) lt =
    let (visits, _, h1) = >>=-eq-ok (in_block block rows) _ h in
    let (_, _, h2) = >>=-eq-ok (check_visits block visits) _ h1 in
    let place : block + suc k ≡ block + 1 + k = omega arith in
    rw place (check_blocks-IsBalanced rows (block + 1) blocks u h2 k (omega arith))

-- In a schedule that is passed, each of the ten superblocks visits each of the three systems
-- exactly once, and every visit of the superblock `1 + k` has the runs `10 * k + 1` to `10 * k + 10`.
pub validate_schedule-IsBalanced :
    (rows : List Visit) (u : Unit {0})
    → validate_schedule rows ≡ ok u
    → (k : ℕ) → k < 10
    → IsBalanced rows (1 + k)
unfolding validate_schedule
validate_schedule-IsBalanced rows u h k lt =
    let (_, _, h1) = >>=-eq-ok (raise_if (not (length rows == 30)) visit_count) _ h in
    let (visits, _, h2) = >>=-eq-ok (ints_of_fields (map (λ (row : Visit). row.visit) rows)) _ h1 in
    let (_, _, h3) =
      >>=-eq-ok
        (raise_if (not (same_ints visits (map (λ (n : ℕ). pos n) (range_from 1 30))))
          visits_not_consecutive)
        _ h2 in
    check_blocks-IsBalanced rows 1 10 u h3 k lt
