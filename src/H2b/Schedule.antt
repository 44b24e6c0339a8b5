-- ===== src/H2b/Schedule.antt =====
-- `validate_schedule`. The numbers of a row are those that `int` reads; a row whose texts are no
-- integers, for which the code raises, is outside the model.
use qos_extended_mros2_esp.Base.{
  ℕ, ◌+◌, ◌-◌, ◌*◌, String, Bool, true, false, not, ◌&&◌, ◌||◌, List, [], ◌∷◌, map, filter, any,
  length, ◌==◌, contains, string_eq, nat_eq, eqb, range_from,
}
use qos_extended_mros2_esp.Base.Int.{ℤ, pos, leb_ℤ, int_eq}
use qos_extended_mros2_esp.Base.Order.{sort_with}
use qos_extended_mros2_esp.Base.Result.{Result, ok, ◌>>=◌, ◌>>◌, raise_if}
use qos_extended_mros2_esp.H2b.Cells.{expected_cells}

pub record VisitRow : Type 0 where
  pub id : String
  pub block : ℤ
  pub visit : ℤ
  pub run_start : ℤ
  pub run_end : ℤ

-- One constructor for each `raise`.
pub data H2bError : Type 0 where
  visit_count not_randomized : H2bError
  block_visit_count block_cells block_numbering block_ordinals : ℕ → H2bError

-- `rows`, sorted.
unfoldable pub rows_of : ℕ → List VisitRow → List VisitRow
rows_of block schedule =
    sort_with (λ (a b : VisitRow). leb_ℤ a.visit b.visit)
      (filter (λ row. row.block == pos block) schedule)

-- `==` on sets, of lists without regard to order and repetition.
unfoldable pub within : List String → List String → Bool
within [] ys = true
within (x ∷ xs) ys = contains ys x && within xs ys

unfoldable pub numbered_from : ℕ → List VisitRow → Bool
numbered_from n [] = true
numbered_from n (row ∷ rows) = row.visit == pos n && numbered_from (n + 1) rows

unfoldable pub wrong_ordinals : ℕ → VisitRow → Bool
wrong_ordinals expected_start row =
    not (row.run_start == pos expected_start) || not (row.run_end == pos (expected_start + 2))

-- The body of the loop, which adds its order to `seen_orders`.
unfoldable pub block_order : List VisitRow → ℕ → Result H2bError (List String)
block_order schedule block =
    let rows = rows_of block schedule in
    let ids = map (λ row. row.id) rows in
    raise_if (not (eqb (length rows) (length expected_cells))) (block_visit_count block)
    >> (raise_if (not (within ids expected_cells && within expected_cells ids)) (block_cells block)
        >> (raise_if (not (numbered_from 1 rows)) (block_numbering block)
            >> (raise_if (any (wrong_ordinals ((block - 1) * 3 + 1)) rows) (block_ordinals block)
                >> ok ids)))

unfoldable pub orders_of : List VisitRow → List ℕ → Result H2bError (List (List String))
orders_of schedule [] = ok []
orders_of schedule (block ∷ blocks) =
    let rest = orders_of schedule blocks in
    block_order schedule block >>= λ order. rest >>= λ orders. ok (order ∷ orders)

unfoldable pub same_order : List String → List String → Bool
same_order [] [] = true
same_order [] (y ∷ ys) = false
same_order (x ∷ xs) [] = false
same_order (x ∷ xs) (y ∷ ys) = x == y && same_order xs ys

-- `len(set(seen_orders)) == 1`
unfoldable pub all_alike : List (List String) → Bool
all_alike [] = false
all_alike (order ∷ orders) = not (any (λ other. not (same_order order other)) orders)

unfoldable pub validate_schedule : List VisitRow → Result H2bError (Unit {0})
validate_schedule schedule =
    let blocks = orders_of schedule (range_from 1 10) in
    raise_if (not (eqb (length schedule) 100)) visit_count
    >> (blocks >>= λ orders. raise_if (all_alike orders) not_randomized)
