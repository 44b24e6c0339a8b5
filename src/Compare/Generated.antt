-- ===== src/Compare/Generated.antt =====
-- The schedule that `generate_schedule` makes passes its own validation.
use qos_extended_mros2_esp.Base.{
  ℕ, zero, suc, ◌+◌, ◌*◌, ◌<◌, ◌≡◌, refl, ap, String, List, [], length, string_eq, option_eq,
  nat_eq, arith, length-append,
}
use qos_extended_mros2_esp.Base.Int.{int_eq}
use qos_extended_mros2_esp.Base.Result.{ok}
use qos_extended_mros2_esp.Compare.Schedule.{
  visits_of, rows_from, ints_of_fields, in_block, check_blocks, validate_schedule,
  generate_schedule,
}
use qos_extended_mros2_esp.Compare.Blocks.{
  IsShuffle, IsFull, IsShuffle-IsFull, check_visits-visits_of, in_block_others, in_block_same,
  other_block, length-visits_of, visits_numbered, check_blocks-Passes, thirty_is, same_ints_self,
  NumberedFrom,
}

module _ (shuffled : ℕ → List String) (shuffles : (block : ℕ) → IsShuffle (shuffled block)) where
  shuffled-IsFull : (block : ℕ) → IsFull (shuffled block)
  shuffled-IsFull block = IsShuffle-IsFull (shuffled block) (shuffles block)

  length-shuffled : (block : ℕ) → length (shuffled block) ≡ 3
  length-shuffled block = ap length (shuffled-IsFull block).systems

  length-rows_from : (block visit n : ℕ) → length (rows_from shuffled block visit n) ≡ 3 * n
  unfolding rows_from
  length-rows_from block visit zero = refl
  length-rows_from block visit (suc n) = omega (
    arith,
    length-append (visits_of block visit 1 (shuffled block))
        (rows_from shuffled (block + 1) (visit + length (shuffled block)) n),
    length-visits_of block visit 1 (shuffled block),
    length-shuffled block,
    length-rows_from (block + 1) (visit + length (shuffled block)) n,
  )

  visits_in_order :
      (block visit n : ℕ) → NumberedFrom (3 * n) (rows_from shuffled block visit n) (visit + 1)
  unfolding rows_from
  visits_in_order block visit zero = unfold ints_of_fields in refl
  visits_in_order block visit (suc n) =
      let count : 3 * suc n ≡ length (shuffled block) + 3 * n =
        omega (arith, length-shuffled block) in
      rw count (
        visits_numbered block visit 1 (3 * n) (shuffled block) _
          (visits_in_order (block + 1) (visit + length (shuffled block)) n))

  in_block_before :
      (k block visit n : ℕ) → k < block → in_block k (rows_from shuffled block visit n) ≡ ok []
  unfolding rows_from
  in_block_before k block visit zero lt = unfold in_block in refl
  in_block_before k block visit (suc n) lt =
      in_block_others k block visit 1 (shuffled block) _ [] (other_block k block lt).1
        (in_block_before k (block + 1) (visit + length (shuffled block)) n (omega arith))

  in_block_at :
      (block visit n j : ℕ)
      → j < n
      → (v : ℕ) × (in_block (block + j) (rows_from shuffled block visit n)
          ≡ ok (visits_of (block + j) v 1 (shuffled (block + j))))
  unfolding rows_from
  in_block_at block visit zero j lt = absurd (omega arith)
  in_block_at block visit (suc n) zero lt =
      let here : block + zero ≡ block = omega arith in
      (
        visit,
        rw here (
            in_block_same block visit 1 (shuffled block) _ (
              in_block_before block (block + 1) (visit + length (shuffled block)) n (omega arith))),
      )
  in_block_at block visit (suc n) (suc j) lt =
      let (v, there) =
        in_block_at (block + 1) (visit + length (shuffled block)) n j (omega arith) in
      let place : block + suc j ≡ block + 1 + j = omega arith in
      (
        v,
        rw place (
            in_block_others (block + 1 + j) block visit 1 (shuffled block) _ _
              (other_block block (block + 1 + j) (omega arith)).0 there),
      )

  -- If the systems of every superblock are shuffled into one of their six orders, then generation
  -- succeeds: the thirty rows that it makes pass `validate_schedule`, which it calls on them.
  pub generate_schedule-passes : generate_schedule shuffled ≡ ok (rows_from shuffled 1 0 10)
  unfolding generate_schedule validate_schedule
  generate_schedule-passes =
      let rows = rows_from shuffled 1 0 10 in
      let blocks : check_blocks rows 1 10 ≡ ok tt = check_blocks-Passes rows 1 10 (λ j lt.
        let (v, there) = in_block_at 1 0 10 j lt in
        (
          _,
          there,
          check_visits-visits_of (1 + j) v (shuffled (1 + j)) (shuffled-IsFull (1 + j)),
        )) in
      rw (length-rows_from 1 0 10, thirty_is, visits_in_order 1 0 10, same_ints_self, blocks) refl
