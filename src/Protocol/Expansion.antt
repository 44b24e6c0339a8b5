-- ===== src/Protocol/Expansion.antt =====
-- The schedule that is expanded from a document that passes.
use qos_extended_mros2_esp.Base.{
  ℕ, suc, ◌+◌, ◌*◌, ◌≡◌, refl, sym, ap, ◌∙◌, String, Bool, true, false, not, List, [], ◌∷◌, map,
  length, sum, flat_map, length-append, length-map, arith, eqb, inl, inr, string_eq, option_eq,
  nat_eq,
}
use qos_extended_mros2_esp.Base.Dict.{Dict, values}
use qos_extended_mros2_esp.Base.Result.{
  Result, ok, err, ◌>>=◌, ◌>>◌, raise_if, >>=-eq-ok, ok_injective, Result-cases,
}
use qos_extended_mros2_esp.Base.Order.{sort_with, insert_with}
use qos_extended_mros2_esp.Base.Text.{text_le}
use qos_extended_mros2_esp.Protocol.{
  Pair, Matrix, Deterministic, ProtocolError, matrix_count, check_matrix, check_matrices,
  validate_deterministic, ScheduledCase, pair_rows, matrix_rows, case_row, with_ordinals,
  unnumbered_rows, expand_cases, count_in, count_policies, GenerateError, output_exists,
  count_differs, ids_differ, invalid, Expanded, id_of, wrap, generate, all_distinct,
}
use qos_extended_mros2_esp.Protocol.Families.{IsApart, all_distinct-IsApart}

length-flat_map {ℓ κ} :
    {A : Type ℓ} {B : Type κ} (f : A → List B) (n : ℕ) (xs : List A)
    → ((x : A) → length (f x) ≡ n)
    → length (flat_map f xs) ≡ length xs * n
length-flat_map f n [] h = omega arith
length-flat_map f n (x ∷ xs) h =
    length-append (f x) (flat_map f xs) ∙ omega (arith, h x, length-flat_map f n xs h)

length-pair_rows :
    (matrix : Matrix) (direction order : String) (n : ℕ) (pairs : List Pair)
    → length (pair_rows matrix direction order n pairs) ≡ length pairs
unfolding pair_rows
length-pair_rows matrix direction order n [] = refl
length-pair_rows matrix direction order n (pair ∷ pairs) =
    ap suc (length-pair_rows matrix direction order (n + 1) pairs)

length-matrix_rows : (matrix : Matrix) → length (matrix_rows matrix) ≡ matrix_count matrix
unfolding matrix_rows
length-matrix_rows matrix =
    length-flat_map _ (length matrix.endpoint_creation_orders * length matrix.pairs)
      matrix.directions
      (λ direction.
        length-flat_map _ (length matrix.pairs) matrix.endpoint_creation_orders
          (λ order. length-pair_rows matrix direction order 1 matrix.pairs))
    ∙ omega arith

length-with_ordinals :
    (n : ℕ) (rows : List ScheduledCase) → length (with_ordinals n rows) ≡ length rows
unfolding with_ordinals
length-with_ordinals n [] = refl
length-with_ordinals n (row ∷ rows) = ap suc (length-with_ordinals (n + 1) rows)

length-all_rows :
    (matrices : List Matrix)
    → length (flat_map matrix_rows matrices) ≡ sum (map matrix_count matrices)
length-all_rows [] = refl
length-all_rows (matrix ∷ matrices) =
    length-append (matrix_rows matrix) (flat_map matrix_rows matrices)
    ∙ omega (arith, length-matrix_rows matrix, length-all_rows matrices)

check_matrix-eq-ok :
    (matrix : Matrix) (count : ℕ) → check_matrix matrix ≡ ok count → count ≡ matrix_count matrix
unfolding check_matrix
check_matrix-eq-ok matrix count h = ground (arith, h)

check_matrices-eq-ok :
    (matrices : List Matrix) (count : ℕ)
    → check_matrices matrices ≡ ok count
    → count ≡ sum (map matrix_count matrices)
unfolding check_matrices
check_matrices-eq-ok [] count h = sym (ok_injective h)
check_matrices-eq-ok (matrix ∷ matrices) count h =
    let (first, one, h1) = >>=-eq-ok (check_matrix matrix) _ h in
    let (rest, others, h2) = >>=-eq-ok (check_matrices matrices) _ h1 in
    sym (ok_injective h2)
    ∙ ap (λ k. k + rest) (check_matrix-eq-ok matrix first one)
    ∙ ap (λ k. matrix_count matrix + k) (check_matrices-eq-ok matrices rest others)

-- What the three counts of a document are.
abbrev pub AreCounts : Deterministic → ℕ × ℕ × ℕ → Type 0
AreCounts draft (expanded, mechanisms, total) =
    (expanded ≡ sum (map matrix_count draft.compatibility_matrices))
    × (mechanisms ≡ length draft.mechanism_cases)
    × (total ≡ expanded + mechanisms)

validate_deterministic-AreCounts :
    (draft : Deterministic) (counts : ℕ × ℕ × ℕ)
    → validate_deterministic draft ≡ ok counts
    → AreCounts draft counts
unfolding validate_deterministic
validate_deterministic-AreCounts draft counts h =
    elim (Result-cases (check_matrices draft.compatibility_matrices)) [
      | inl (e, bad) ↦ absurd (ground (arith, h, bad))
      | inr (expanded, read) ↦
          ground (arith, h, read, check_matrices-eq-ok draft.compatibility_matrices expanded read)
    ]

-- Every row of the schedule is counted once.
length-expand_cases :
    (draft : Deterministic) (counts : ℕ × ℕ × ℕ)
    → AreCounts draft counts
    → length (expand_cases draft) ≡ counts.2
unfolding expand_cases
length-expand_cases draft (expanded, mechanisms, total) (e, m, t) =
    length-with_ordinals 1 (unnumbered_rows draft)
    ∙ length-append (flat_map matrix_rows draft.compatibility_matrices)
        (map case_row draft.mechanism_cases)
    ∙ omega (
      arith,
      length-all_rows draft.compatibility_matrices,
      length-map case_row draft.mechanism_cases,
      e,
      m,
      t,
    )

sum-count_in :
    (policy : String) (counts : Dict String ℕ)
    → sum (values (count_in policy counts)) ≡ sum (values counts) + 1
unfolding count_in
sum-count_in policy [] = refl
sum-count_in policy ((other, n) ∷ counts) = ground (arith, sum-count_in policy counts)

sum-count_policies :
    (counts : Dict String ℕ) (rows : List (String × ScheduledCase))
    → sum (values (count_policies counts rows)) ≡ sum (values counts) + length rows
unfolding count_policies
sum-count_policies counts [] = omega arith
sum-count_policies counts (row ∷ rows) = omega (
  arith,
  sum-count_policies (count_in row.1.policy counts) rows,
  sum-count_in row.1.policy counts,
)

module _ (le : String × ℕ → String × ℕ → Bool) where
  sum-insert_with :
      (x : String × ℕ) (counts : Dict String ℕ)
      → sum (values (insert_with le x counts)) ≡ x.1 + sum (values counts)
  unfolding insert_with
  sum-insert_with x [] = refl
  sum-insert_with x (y ∷ counts) = ground (arith, sum-insert_with x counts)

  sum-sort_with :
      (counts : Dict String ℕ) → sum (values (sort_with le counts)) ≡ sum (values counts)
  unfolding sort_with
  sum-sort_with [] = refl
  sum-sort_with (x ∷ counts) =
      omega (arith, sum-insert_with x (sort_with le counts), sum-sort_with counts)

-- What `main` makes of a document: a schedule, or an error that is not one of the counts.
abbrev pub IsGenerated : Deterministic → Result GenerateError Expanded → Type 0
IsGenerated draft (err output_exists) = Unit
IsGenerated draft (err count_differs) = ⊥
IsGenerated draft (err ids_differ) = Unit
IsGenerated draft (err (invalid e)) = Unit
IsGenerated draft (ok made) =
    (made.rows ≡ expand_cases draft)
    × AreCounts draft (made.compatibility_cases, made.mechanism_cases, made.total_cases)
    × (length made.rows ≡ made.total_cases)
    × IsApart (map id_of made.rows)
    × (sum (values made.policy_counts) ≡ made.total_cases)

wrap-eq-ok :
    (result : Result ProtocolError (ℕ × ℕ × ℕ)) (counts : ℕ × ℕ × ℕ)
    → wrap result ≡ ok counts
    → result ≡ ok counts
wrap-eq-ok (err e) counts h = absurd (ground arith)
wrap-eq-ok (ok found) counts h = ap ok (ok_injective h)

wrap-IsGenerated :
    (draft : Deterministic) (result : Result ProtocolError (ℕ × ℕ × ℕ))
    (next : ℕ × ℕ × ℕ → Result GenerateError Expanded)
    → ((counts : ℕ × ℕ × ℕ) → result ≡ ok counts → IsGenerated draft (next counts))
    → IsGenerated draft (wrap result >>= next)
wrap-IsGenerated draft (err e) next h = tt
wrap-IsGenerated draft (ok counts) next h = h counts refl

raise_if-IsGenerated :
    (draft : Deterministic) (test : Bool) (e : GenerateError) (next : Result GenerateError Expanded)
    → (test ≡ true → IsGenerated draft (err e))
    → (test ≡ false → IsGenerated draft next)
    → IsGenerated draft (raise_if test e >> next)
raise_if-IsGenerated draft true e next h k = h refl
raise_if-IsGenerated draft false e next h k = k refl

-- For every document, `main` never ends with the error that the rows differ in number from the
-- counts that were validated. A schedule that it makes is the expansion of the document: its
-- compatibility cases are the directions times the creation orders times the pairs of each
-- matrix, its mechanism cases those of the document, all rows are as many as both together, no
-- two have the same identifier, and the counts of the policies add up to the rows.
pub generate-IsGenerated :
    (exists : Bool) (draft : Deterministic) → IsGenerated draft (generate exists draft)
unfolding generate
generate-IsGenerated exists draft =
    let rows = expand_cases draft in
    raise_if-IsGenerated draft exists output_exists _ (λ _. tt)
      (λ _. wrap-IsGenerated draft (validate_deterministic draft) _ (λ counts read.
        let are = validate_deterministic-AreCounts draft counts read in
        let size = length-expand_cases draft counts are in
        raise_if-IsGenerated draft (not (eqb (length rows) counts.2)) count_differs _
          (λ differ. absurd (ground (arith, differ, size)))
          (λ _.
            raise_if-IsGenerated draft (not (all_distinct (map id_of rows))) ids_differ _ (λ _. tt)
              (λ apart. (
                refl,
                are,
                size,
                all_distinct-IsApart (map id_of rows) (ground (arith, apart)),
                sum-sort_with (λ (a b : String × ℕ). text_le a.0 b.0) (count_policies [] rows)
                    ∙ omega (arith, sum-count_policies [] rows, size),
              )))))
