-- ===== src/Compare/Blocks.antt =====
-- The rows that `generate_schedule` makes for one superblock, in the loops of the validation.
use qos_extended_mros2_esp.Base.{
  ℕ, zero, suc, ◌+◌, ◌-◌, ◌*◌, ◌<◌, ◌≡◌, refl, sym, ◌⊎◌, inl, inr, String, true, false, ◌&&◌, List,
  [], ◌∷◌, ◌++◌, map, length, ◌==◌, string_eq, option_eq, nat_eq, arith, subst, range_from,
}
use native.Mathlib.Decide.{ℕ_discrete}
use qos_extended_mros2_esp.Base.Int.{ℤ, pos, leb_ℤ, int_eq}
use qos_extended_mros2_esp.Base.Order.{sort_with, insert_with}
use qos_extended_mros2_esp.Base.Result.{ok}
use qos_extended_mros2_esp.Compare.Serial.{system_order}
use qos_extended_mros2_esp.Compare.Schedule.{
  Visit, visits_of, int_of, ints_of_fields, same_ints, in_block, all_systems, check_runs,
  check_visits, check_blocks,
}

-- One of the six orders of the three systems.
abbrev pub IsShuffle : List String → Type 0
IsShuffle xs =
    (xs ≡ "mros2qos" ∷ "upstream" ∷ "microros" ∷ [])
    ⊎ (xs ≡ "mros2qos" ∷ "microros" ∷ "upstream" ∷ [])
    ⊎ (xs ≡ "upstream" ∷ "mros2qos" ∷ "microros" ∷ [])
    ⊎ (xs ≡ "upstream" ∷ "microros" ∷ "mros2qos" ∷ [])
    ⊎ (xs ≡ "microros" ∷ "mros2qos" ∷ "upstream" ∷ [])
    ⊎ (xs ≡ "microros" ∷ "upstream" ∷ "mros2qos" ∷ [])

-- Three systems, and all of them.
pub record IsFull (xs : List String) : Type 0 where
  pub a : String
  pub b : String
  pub c : String
  pub systems : xs ≡ a ∷ b ∷ c ∷ []
  pub full : (all_systems xs system_order && all_systems system_order xs) ≡ true

three-IsFull :
    (a b c : String) (xs : List String)
    → (all_systems (a ∷ b ∷ c ∷ []) system_order && all_systems system_order (a ∷ b ∷ c ∷ []))
      ≡ true
    → xs ≡ a ∷ b ∷ c ∷ []
    → IsFull xs
three-IsFull a b c xs full h = record {
  a = a;
  b = b;
  c = c;
  systems = h;
  full =
      subst (λ ys. (all_systems ys system_order && all_systems system_order ys) ≡ true) (sym h)
        full;
}

pub IsShuffle-IsFull : (xs : List String) → IsShuffle xs → IsFull xs
unfolding string_eq
IsShuffle-IsFull xs (inl h) = three-IsFull _ _ _ xs refl h
IsShuffle-IsFull xs (inr (inl h)) = three-IsFull _ _ _ xs refl h
IsShuffle-IsFull xs (inr (inr (inl h))) = three-IsFull _ _ _ xs refl h
IsShuffle-IsFull xs (inr (inr (inr (inl h)))) = three-IsFull _ _ _ xs refl h
IsShuffle-IsFull xs (inr (inr (inr (inr (inl h))))) = three-IsFull _ _ _ xs refl h
IsShuffle-IsFull xs (inr (inr (inr (inr (inr h))))) = three-IsFull _ _ _ xs refl h

places_sorted :
    same_ints (sort_with leb_ℤ (pos 1 ∷ pos 2 ∷ pos 3 ∷ [])) (pos 1 ∷ pos 2 ∷ pos 3 ∷ []) ≡ true
unfolding same_ints sort_with insert_with int_eq ℕ_discrete
places_sorted = refl

check_runs-visits_of :
    (block visit place : ℕ) (systems : List String)
    → check_runs block ((block - 1) * 10 + 1) (visits_of block visit place systems) ≡ ok tt
unfolding check_runs visits_of int_of
check_runs-visits_of block visit place [] = refl
check_runs-visits_of block visit place (s ∷ systems) =
    ground (arith, check_runs-visits_of block (visit + 1) (place + 1) systems)

three_is : (◌==◌ {A = ℕ} 3 3) ≡ true
three_is = ground arith

check_visits_three :
    (block visit : ℕ) (a b c : String)
    → (all_systems (a ∷ b ∷ c ∷ []) system_order && all_systems system_order (a ∷ b ∷ c ∷ []))
      ≡ true
    → check_visits block (visits_of block visit 1 (a ∷ b ∷ c ∷ [])) ≡ ok tt
unfolding check_visits visits_of ints_of_fields int_of
check_visits_three block visit a b c full =
    rw (three_is, full, places_sorted) (check_runs-visits_of block visit 1 (a ∷ b ∷ c ∷ []))

pub check_visits-visits_of :
    (block visit : ℕ) (xs : List String)
    → IsFull xs
    → check_visits block (visits_of block visit 1 xs) ≡ ok tt
check_visits-visits_of block visit xs full =
    subst (λ ys. check_visits block (visits_of block visit 1 ys) ≡ ok tt) (sym full.systems)
      (check_visits_three block visit full.a full.b full.c (
        subst (λ ys. (all_systems ys system_order && all_systems system_order ys) ≡ true)
          full.systems full.full))

pub thirty_is : (◌==◌ {A = ℕ} 30 30) ≡ true
thirty_is = ground arith

pub same_ints_self : (xs : List ℤ) → same_ints xs xs ≡ true
unfolding same_ints
same_ints_self [] = refl
same_ints_self (x ∷ xs) = ground (arith, same_ints_self xs)

-- The rows of one superblock, in the loops of the validation.
pub in_block_others :
    (k block visit place : ℕ) (xs : List String) (rest kept : List Visit)
    → (◌==◌ {A = ℤ} (pos block) (pos k)) ≡ false
    → in_block k rest ≡ ok kept
    → in_block k (visits_of block visit place xs ++ rest) ≡ ok kept
unfolding in_block visits_of int_of
in_block_others k block visit place [] rest kept other h = h
in_block_others k block visit place (x ∷ xs) rest kept other h =
    ground (arith, in_block_others k block (visit + 1) (place + 1) xs rest kept other h, other)

pub in_block_same :
    (block visit place : ℕ) (xs : List String) (rest : List Visit)
    → in_block block rest ≡ ok []
    → in_block block (visits_of block visit place xs ++ rest) ≡ ok (visits_of block visit place xs)
unfolding in_block visits_of int_of
in_block_same block visit place [] rest h = h
in_block_same block visit place (x ∷ xs) rest h =
    ground (arith, in_block_same block (visit + 1) (place + 1) xs rest h)

pub other_block :
    (a b : ℕ)
    → a < b
    → (◌==◌ {A = ℤ} (pos a) (pos b) ≡ false) × (◌==◌ {A = ℤ} (pos b) (pos a) ≡ false)
other_block a b lt = (ground arith, ground arith)

pub length-visits_of :
    (block visit place : ℕ) (xs : List String) → length (visits_of block visit place xs) ≡ length xs
unfolding visits_of
length-visits_of block visit place [] = refl
length-visits_of block visit place (x ∷ xs) =
    omega (arith, length-visits_of block (visit + 1) (place + 1) xs)

abbrev pub NumberedFrom : ℕ → List Visit → ℕ → Type 0
NumberedFrom m rows start =
    ints_of_fields (map (λ (row : Visit). row.visit) rows)
    ≡ ok (map (λ (n : ℕ). pos n) (range_from start m))

-- The numbers of the visits go on from those of the rows behind.
pub visits_numbered :
    (block visit place m : ℕ) (xs : List String) (rest : List Visit)
    → NumberedFrom m rest (visit + length xs + 1)
    → NumberedFrom (length xs + m) (visits_of block visit place xs ++ rest) (visit + 1)
unfolding visits_of ints_of_fields int_of
visits_numbered block visit place m [] rest h =
    let none_here : 0 + m ≡ m = omega arith in
    let start : visit + 0 + 1 ≡ visit + 1 = omega arith in
    rw none_here (subst (NumberedFrom m rest) start h)
visits_numbered block visit place m (x ∷ xs) rest h =
    let start : visit + length (x ∷ xs) + 1 ≡ visit + 1 + length xs + 1 = omega arith in
    let one_more : suc (length xs) + m ≡ suc (length xs + m) = omega arith in
    let next : suc (visit + 1) ≡ visit + 1 + 1 = omega arith in
    rw
      (
        visits_numbered block (visit + 1) (place + 1) m xs rest
            (subst (NumberedFrom m rest) start h),
        one_more,
        next,
      )
      refl

-- The visits of a superblock are found, and pass.
abbrev pub Passes : List Visit → ℕ → Type 0
Passes rows block =
    (visits : List Visit) × (in_block block rows ≡ ok visits) × (check_visits block visits ≡ ok tt)

pub check_blocks-Passes :
    (rows : List Visit) (block n : ℕ)
    → ((j : ℕ) → j < n → Passes rows (block + j))
    → check_blocks rows block n ≡ ok tt
unfolding check_blocks
check_blocks-Passes rows block zero h = refl
check_blocks-Passes rows block (suc n) h =
    let here : block + 0 ≡ block = omega arith in
    let (visits, are, passed) = subst (Passes rows) here (h 0 (omega arith)) in
    let later : (j : ℕ) → j < n → Passes rows (block + 1 + j) =
      λ j lt. subst (Passes rows) (omega arith) (h (suc j) (omega arith)) in
    rw (are, passed) (check_blocks-Passes rows (block + 1) n later)
