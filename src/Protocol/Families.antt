-- ===== src/Protocol/Families.antt =====
-- The families of a performance document that passes, and the identifiers of its cells.
use mathlib.Core.List.{map-append}
use qos_extended_mros2_esp.Base.{
  ℕ, ◌+◌, ◌≡◌, ◌≢◌, refl, sym, ap, ◌∙◌, subst, String, true, false, not, none, some, List, [], ◌∷◌,
  ◌++◌, map, length, flat_map, sum, contains, Any, All, All-append, arith, string_eq, option_eq,
  eqb, Option-cases, Bool-cases, inl, inr, ◌==◌,
}
use qos_extended_mros2_esp.Base.Dict.{Dict, lookup}
use qos_extended_mros2_esp.Base.Int.{int_eq}
use qos_extended_mros2_esp.Base.Result.{
  ok, ◌>>=◌, ◌>>◌, raise_if, >>=-eq-ok, raise_if-eq-ok, ok_injective,
}
use qos_extended_mros2_esp.Base.Text.{nonempty}
use qos_extended_mros2_esp.Protocol.{
  Cell, all_distinct, Family, ids_of, check_paths, check_family, check_families, cell_count,
  family_name, expected_families, subset, bad_cell_id, duplicate_cell_id,
}
use qos_extended_mros2_esp.Protocol.Paths.{ArePaths, check_paths-ArePaths}

-- No text occurs twice.
abbrev pub IsApart : List String → Type 0
IsApart [] = Unit
IsApart (x ∷ xs) = All (λ y. x ≢ y) xs × IsApart xs

-- The texts are the identifiers of the cells, and none is empty.
abbrev pub AreIds : List Cell → List String → Type 0
AreIds cells ids =
    (map (λ (cell : Cell). cell.id) cells ≡ map some ids) × All (λ id. nonempty id ≡ true) ids

abbrev pub cells_of : Dict String (List Cell) → Family → List Cell
cells_of families family = elim (lookup family.name families) [ none ↦ [] | some cells ↦ cells ]

-- The family is there, with its cells and its paths.
abbrev pub IsFamily : Dict String (List Cell) → Family → Type 0
IsFamily families family =
    (lookup family.name families ≡ some (cells_of families family))
    × (length (cells_of families family) ≡ family.count)
    × ArePaths family.factors (cells_of families family)

-- The text is the name of a family that is expected.
abbrev pub IsExpected : String → Type 0
IsExpected name = Any (λ (family : Family). family.name ≡ name) expected_families

contains-IsExpected :
    (families : List Family) (name : String)
    → contains (map family_name families) name ≡ true
    → Any (λ (family : Family). family.name ≡ name) families
contains-IsExpected [] name h = absurd (ground (arith, h))
contains-IsExpected (family ∷ families) name h = elim (Bool-cases (name == family.name)) [
  | inl same ↦ inl (ground (arith, same))
  | inr other ↦ inr (contains-IsExpected families name (ground (arith, h, other)))
]

pub subset-IsExpected :
    (names : List String)
    → subset names (map family_name expected_families) ≡ true
    → All IsExpected names
subset-IsExpected [] h = tt
subset-IsExpected (name ∷ names) h =
    elim (Bool-cases (contains (map family_name expected_families) name)) [
      | inl found ↦ (
        contains-IsExpected expected_families name found,
        subset-IsExpected names (rw found at h),
      )
      | inr missing ↦ absurd (ground (arith, (rw missing at h)))
    ]

abbrev family_count : Family → ℕ
family_count family = family.count

contains-apart : (x : String) (xs : List String) → contains xs x ≡ false → All (λ y. x ≢ y) xs
contains-apart x [] h = tt
contains-apart x (y ∷ ys) h =
    (λ same. absurd (ground (arith, h, same)), contains-apart x ys (ground (arith, h)))

pub all_distinct-IsApart : (xs : List String) → all_distinct xs ≡ true → IsApart xs
unfolding all_distinct
all_distinct-IsApart [] h = tt
all_distinct-IsApart (x ∷ xs) h =
    (contains-apart x xs (ground (arith, h)), all_distinct-IsApart xs (ground (arith, h)))

ids_of-AreIds : (cells : List Cell) (ids : List String) → ids_of cells ≡ ok ids → AreIds cells ids
unfolding ids_of
ids_of-AreIds [] ids h = subst (AreIds []) (ok_injective h) (refl, tt)
ids_of-AreIds (cell ∷ cells) ids h = elim (Option-cases cell.id) [
  | inl missing ↦ absurd (ground (arith, h, missing))
  | inr (id, there) ↦
      let named : (raise_if (not (nonempty id)) bad_cell_id
            >> (ids_of cells >>= λ more. ok (id ∷ more)))
          ≡ ok ids =
        rw (there, ids_of) at h in
      let (_, full, h1) = >>=-eq-ok (raise_if (not (nonempty id)) bad_cell_id) _ named in
      let (more, rest, h2) = >>=-eq-ok (ids_of cells) _ h1 in
      let (same, nonempties) = ids_of-AreIds cells more rest in
      subst (AreIds (cell ∷ cells)) (ok_injective h2) (
        ap (λ o. o ∷ map (λ (c : Cell). c.id) cells) there ∙ ap (λ os. some id ∷ os) same,
        (ground (arith, raise_if-eq-ok (not (nonempty id)) bad_cell_id full), nonempties),
      )
]

check_family-eq-ok :
    (families : Dict String (List Cell)) (family : Family) (cells : List Cell) (ids : List String)
    → lookup family.name families ≡ some cells
    → check_family family cells ≡ ok ids
    → IsFamily families family × AreIds (cells_of families family) ids
unfolding check_family
check_family-eq-ok families family cells ids there h =
    let other = not (eqb (length cells) family.count) in
    let (_, count, h1) = >>=-eq-ok (raise_if other cell_count) _ h in
    let (found, named, h2) = >>=-eq-ok (ids_of cells) _ h1 in
    let (_, _, h3) = >>=-eq-ok (raise_if (not (all_distinct found)) duplicate_cell_id) _ h2 in
    let (_, paths, h4) = >>=-eq-ok (check_paths family.factors cells) _ h3 in
    let same : cells ≡ cells_of families family = rw (there, cells_of) refl in
    (
      (
        there ∙ ap some same,
        subst (λ cs. length cs ≡ family.count) same
            (ground (arith, raise_if-eq-ok other cell_count count)),
        subst (ArePaths family.factors) same (check_paths-ArePaths family.factors cells paths),
      ),
      subst (λ cs. AreIds cs ids) same
          (subst (AreIds cells) (ok_injective h4) (ids_of-AreIds cells found named)),
    )

AreIds-append :
    (xs ys : List Cell) (ids names : List String)
    → AreIds xs ids
    → AreIds ys names
    → AreIds (xs ++ ys) (ids ++ names)
AreIds-append xs ys ids names (h, full) (k, full2) = (
  map-append (λ (cell : Cell). cell.id) xs ys
      ∙ ap (λ zs. zs ++ map (λ (cell : Cell). cell.id) ys) h
      ∙ ap (λ zs. map some ids ++ zs) k
      ∙ sym (map-append some ids names),
  All-append (λ id. nonempty id ≡ true) ids names full full2,
)

-- What the loop over the families comes to.
abbrev pub AreFamilies : Dict String (List Cell) → List Family → ℕ × List String → Type 0
AreFamilies families expected (count, ids) =
    All (IsFamily families) expected
    × AreIds (flat_map (cells_of families) expected) ids
    × (count ≡ sum (map family_count expected))

AreFamilies-cons :
    (families : Dict String (List Cell)) (family : Family) (more : List Family) (cells : List Cell)
    (ids : List String) (rest : ℕ × List String)
    → lookup family.name families ≡ some cells
    → check_family family cells ≡ ok ids
    → AreFamilies families more rest
    → AreFamilies families (family ∷ more) (length cells + rest.0, ids ++ rest.1)
AreFamilies-cons families family more cells ids (n, names) there first (all, all_named, count) =
    let (is_family, named) = check_family-eq-ok families family cells ids there first in
    let same : cells ≡ cells_of families family = rw (there, cells_of) refl in
    (
      (is_family, all),
      AreIds-append (cells_of families family) (flat_map (cells_of families) more) ids names named
          all_named,
      omega (arith, ap length same, is_family.1, count),
    )

pub check_families-eq-ok :
    (families : Dict String (List Cell)) (expected : List Family) (found : ℕ × List String)
    → check_families families expected ≡ ok found
    → AreFamilies families expected found
unfolding check_families
check_families-eq-ok families [] found h =
    subst (AreFamilies families []) (ok_injective h) (tt, (refl, tt), refl)
check_families-eq-ok families (family ∷ more) found h =
    elim (Option-cases (lookup family.name families)) [
      | inl missing ↦ absurd (ground (arith, h, missing))
      | inr (cells, there) ↦
          let checked : (check_family family cells >>= λ ids.
          check_families families more >>= λ rest. ok (length cells + rest.0, ids ++ rest.1))
              ≡ ok found =
            rw (there, check_families) at h in
          let (ids, first, h1) = >>=-eq-ok (check_family family cells) _ checked in
          let (rest, others, h2) = >>=-eq-ok (check_families families more) _ h1 in
          subst (AreFamilies families (family ∷ more)) (ok_injective h2) (
            AreFamilies-cons families family more cells ids rest there first
              (check_families-eq-ok families more rest others))
    ]
