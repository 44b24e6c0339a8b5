-- ===== src/H2b/Laws.antt =====
-- What a schedule that passes holds.
use qos_extended_mros2_esp.Base.{
  ℕ, suc, ◌+◌, ◌-◌, ◌*◌, ◌≡◌, refl, String, true, false, not, ◌&&◌, List, [], ◌∷◌, map, any, length,
  All, eqb, range_from, arith, string_eq,
}
use qos_extended_mros2_esp.Base.Int.{pos, int_eq}
use qos_extended_mros2_esp.Base.Result.{ok, >>=-eq-ok, raise_if, raise_if-eq-ok}
use qos_extended_mros2_esp.H2b.Cells.{expected_cells}
use qos_extended_mros2_esp.H2b.Schedule.{
  VisitRow, visit_count, block_visit_count, block_cells, block_numbering, block_ordinals, rows_of,
  within, numbered_from, wrong_ordinals, block_order, orders_of, all_alike, validate_schedule,
}

abbrev pub order_of : List VisitRow → ℕ → List String
order_of schedule block = map (λ (row : VisitRow). row.id) (rows_of block schedule)

abbrev pub HasOrdinals : ℕ → VisitRow → Type 0
HasOrdinals start row = (row.run_start ≡ pos start) × (row.run_end ≡ pos (start + 2))

abbrev pub IsBlock : List VisitRow → ℕ → Type 0
IsBlock schedule block =
    (length (rows_of block schedule) ≡ length expected_cells)
    × (within (order_of schedule block) expected_cells ≡ true)
    × (within expected_cells (order_of schedule block) ≡ true)
    × (map (λ (row : VisitRow). row.visit) (rows_of block schedule)
        ≡ map pos (range_from 1 (length (rows_of block schedule))))
    × All (HasOrdinals ((block - 1) * 3 + 1)) (rows_of block schedule)

abbrev pub IsScheduled : List VisitRow → Type 0
IsScheduled schedule =
    (length schedule ≡ 100)
    × All (IsBlock schedule) (range_from 1 10)
    × (all_alike (map (order_of schedule) (range_from 1 10)) ≡ false)

numbered_from-visits :
    (n : ℕ) (rows : List VisitRow)
    → numbered_from n rows ≡ true
    → map (λ (row : VisitRow). row.visit) rows ≡ map pos (range_from n (length rows))
unfolding numbered_from
numbered_from-visits n [] h = refl
numbered_from-visits n (row ∷ rows) h =
    let here : row.visit ≡ pos n = ground (arith, h) in
    let later : numbered_from (suc n) rows ≡ true = ground (arith, h) in
    rw (here, numbered_from-visits (suc n) rows later) refl

wrong_ordinals-HasOrdinals :
    (start : ℕ) (rows : List VisitRow)
    → any (wrong_ordinals start) rows ≡ false
    → All (HasOrdinals start) rows
unfolding wrong_ordinals
wrong_ordinals-HasOrdinals start [] h = tt
wrong_ordinals-HasOrdinals start (row ∷ rows) h = (
  (ground (arith, h), ground (arith, h)),
  wrong_ordinals-HasOrdinals start rows (ground (arith, h)),
)

block_order-IsBlock :
    (schedule : List VisitRow) (block : ℕ) (order : List String)
    → block_order schedule block ≡ ok order
    → (order_of schedule block ≡ order) × IsBlock schedule block
unfolding block_order
block_order-IsBlock schedule block order h =
    let rows = rows_of block schedule in
    let (_, h1, k1) =
      >>=-eq-ok
        (raise_if (not (eqb (length rows) (length expected_cells))) (block_visit_count block)) _
        h in
    let (_, h2, k2) =
      >>=-eq-ok
        (raise_if
          (not (
            within (order_of schedule block) expected_cells
            && within expected_cells (order_of schedule block)))
          (block_cells block))
        _ k1 in
    let (_, h3, k3) =
      >>=-eq-ok (raise_if (not (numbered_from 1 rows)) (block_numbering block)) _ k2 in
    let (_, h4, k4) =
      >>=-eq-ok (raise_if (any (wrong_ordinals ((block - 1) * 3 + 1)) rows) (block_ordinals block))
        _ k3 in
    (
      ground (arith, k4),
      (
        ground (arith, raise_if-eq-ok _ _ h1),
        ground (arith, raise_if-eq-ok _ _ h2),
        ground (arith, raise_if-eq-ok _ _ h2),
        numbered_from-visits 1 rows (ground (arith, raise_if-eq-ok _ _ h3)),
        wrong_ordinals-HasOrdinals ((block - 1) * 3 + 1) rows (raise_if-eq-ok _ _ h4),
      ),
    )

orders_of-IsBlock :
    (schedule : List VisitRow) (blocks : List ℕ) (orders : List (List String))
    → orders_of schedule blocks ≡ ok orders
    → (map (order_of schedule) blocks ≡ orders) × All (IsBlock schedule) blocks
unfolding orders_of
orders_of-IsBlock schedule [] orders h = (ground (arith, h), tt)
orders_of-IsBlock schedule (block ∷ blocks) orders h =
    let (order, h1, k1) = >>=-eq-ok (block_order schedule block) _ h in
    let (rest, h2, k2) = >>=-eq-ok (orders_of schedule blocks) _ k1 in
    let (same, is_block) = block_order-IsBlock schedule block order h1 in
    let (alike, are_blocks) = orders_of-IsBlock schedule blocks rest h2 in
    (rw (same, alike) (ground (arith, k2)), (is_block, are_blocks))

-- A schedule that passes has 100 rows, and each of the blocks 1 to 10 has ten: its visits are
-- numbered from 1 in order, its ids are exactly the cells of the campaign, and each row has the
-- three ordinals of its block. Not all of the blocks visit the cells in the same order.
pub validate_schedule-IsScheduled :
    (schedule : List VisitRow) → validate_schedule schedule ≡ ok tt → IsScheduled schedule
unfolding validate_schedule
validate_schedule-IsScheduled schedule h =
    let (_, h1, k1) = >>=-eq-ok (raise_if (not (eqb (length schedule) 100)) visit_count) _ h in
    let (orders, h2, k2) = >>=-eq-ok (orders_of schedule (range_from 1 10)) _ k1 in
    let (same, blocks) = orders_of-IsBlock schedule (range_from 1 10) orders h2 in
    (ground (arith, raise_if-eq-ok _ _ h1), blocks, rw same (raise_if-eq-ok _ _ k2))
