-- ===== src/Protocol/Cells.antt =====
-- `validate_performance`, and the paths from a family's anchor to its corners.
use qos_extended_mros2_esp.Base.{
  ℕ, ◌+◌, String, Bool, true, not, ◌&&◌, Option, none, some, List, [], ◌∷◌, ◌++◌, map, length,
  filter, any, contains, ◌==◌, string_eq, option_eq, nat_eq, ltb, eqb, if◌then◌else◌,
}
use qos_extended_mros2_esp.Base.Dict.{Dict, keys, lookup}
use qos_extended_mros2_esp.Base.Int.{ℤ, pos, ◌+ℤ◌, ◌*ℤ◌, ltb_ℤ, int_eq}
use qos_extended_mros2_esp.Base.Result.{Result, ok, err, ◌>>=◌, ◌>>◌, raise_if}
use qos_extended_mros2_esp.Base.Text.{nonempty}
use qos_extended_mros2_esp.Protocol.Document.{
  Value, value_eq, Cell, Performance, ProtocolError, all_distinct, performance_status,
  bad_runs_per_cell, visits_mismatch, family_set, cell_count, bad_cell_id, duplicate_cell_id,
  ids_not_unique, cell_total, run_total, combined_total, anchor_count, few_factors,
  missing_main_cell,
}

-- `cell.get(name)`
abbrev pub factor : Cell → String → Option Value
factor cell name = lookup name cell.factors

abbrev pub is_anchor : Cell → Bool
is_anchor cell = cell.role == some "anchor"

abbrev pub is_corner : Cell → Bool
is_corner cell = cell.role == some "interaction_corner"

-- The factors in which a corner differs from the anchor.
abbrev pub changed_factors : Cell → Cell → List String → List String
changed_factors anchor corner factors =
    filter (λ name. not (factor corner name == factor anchor name)) factors

-- `main_values[name]`: the anchor's factor, or the corner's for the one that is changed.
abbrev pub main_value : Cell → Cell → String → String → Option Value
main_value anchor corner changed name =
    if name == changed then factor corner name else factor anchor name

-- A cell has these factors: the test of a key in `observed`.
unfoldable pub has_main_values : Cell → Cell → String → List String → Cell → Bool
has_main_values anchor corner changed [] cell = true
has_main_values anchor corner changed (name ∷ factors) cell =
    factor cell name == main_value anchor corner changed name
    && has_main_values anchor corner changed factors cell

unfoldable pub check_changed :
    List Cell → Cell → Cell → List String → List String → Result ProtocolError (Unit {0})
check_changed others anchor corner factors [] = ok tt
check_changed others anchor corner factors (changed ∷ more) =
    raise_if (not (any (has_main_values anchor corner changed factors) others)) missing_main_cell
    >> check_changed others anchor corner factors more

unfoldable pub check_corners :
    List Cell → Cell → List String → List Cell → Result ProtocolError (Unit {0})
check_corners others anchor factors [] = ok tt
check_corners others anchor factors (corner ∷ corners) = do
  raise_if (ltb (length (changed_factors anchor corner factors)) 2) few_factors
  check_changed others anchor corner factors (changed_factors anchor corner factors)
  check_corners others anchor factors corners

unfoldable pub paths_from : List Cell → List String → List Cell → Result ProtocolError (Unit {0})
paths_from cells factors (anchor ∷ []) =
    check_corners (filter (λ cell. not (is_corner cell)) cells) anchor factors
      (filter is_corner cells)
paths_from cells factors anchors = err anchor_count

-- `validate_interaction_paths`
unfoldable pub validate_interaction_paths :
    List Cell → List String → Result ProtocolError (Unit {0})
validate_interaction_paths cells factors = paths_from cells factors (filter is_anchor cells)

-- A family of `EXPECTED_FAMILY_COUNTS`, with its factors in `INTERACTION_FACTORS`, if it is there.
pub record Family : Type 0 where
  pub name : String
  pub count : ℕ
  pub factors : Option (List String)

abbrev pub expected_families : List Family
expected_families =
    record {
      name = "history_depth";
      count = 9;
      factors = some ("depth" ∷ "burst_size" ∷ "loss_pct" ∷ []);
    }
    ∷ record { name = "durability"; count = 8; factors = none }
    ∷ record {
      name = "deadline";
      count = 9;
      factors = some ("deadline_ms" ∷ "publish_period_ms" ∷ "delay_ms" ∷ []);
    }
    ∷ record {
      name = "lifespan";
      count = 8;
      factors = some ("lifespan_ms" ∷ "release_delay_ms" ∷ []);
    }
    ∷ record { name = "liveliness"; count = 8; factors = some ("lease_s" ∷ "outage_s" ∷ []) }
    ∷ record {
      name = "resource_limits";
      count = 9;
      factors = some ("max_samples" ∷ "payload_bytes" ∷ "publish_rate_hz" ∷ []);
    }
    ∷ []

-- The identifiers of some cells, if each is a text that is not empty.
unfoldable pub ids_of : List Cell → Result ProtocolError (List String)
ids_of [] = ok []
ids_of (cell ∷ cells) = elim cell.id [
  | none ↦ err bad_cell_id
  | some id ↦
      let rest = ids_of cells in
      raise_if (not (nonempty id)) bad_cell_id >> (rest >>= λ ids. ok (id ∷ ids))
]

unfoldable pub check_paths : Option (List String) → List Cell → Result ProtocolError (Unit {0})
check_paths none cells = ok tt
check_paths (some factors) cells = validate_interaction_paths cells factors

unfoldable pub check_family : Family → List Cell → Result ProtocolError (List String)
check_family family cells = do
  raise_if (not (eqb (length cells) family.count)) cell_count
  ids ← ids_of cells
  raise_if (not (all_distinct ids)) duplicate_cell_id
  check_paths family.factors cells
  ok ids

-- The loop over the families: the number of their cells, and all identifiers.
unfoldable pub check_families :
    Dict String (List Cell) → List Family → Result ProtocolError (ℕ × List String)
check_families families [] = ok (0, [])
check_families families (family ∷ more) = elim (lookup family.name families) [
  | none ↦ err family_set
  | some cells ↦ do
    ids ← check_family family cells
    rest ← check_families families more
    ok (length cells + rest.0, ids ++ rest.1)
]

abbrev pub subset : List String → List String → Bool
subset [] names = true
subset (x ∷ xs) names = contains names x && subset xs names

-- `set(xs) == set(ys)`
abbrev pub same_set : List String → List String → Bool
same_set xs ys = subset xs ys && subset ys xs

abbrev pub family_name : Family → String
family_name family = family.name

unfoldable pub check_totals : Performance → ℤ → ℤ → Result ProtocolError (ℤ × ℤ)
check_totals draft cells runs = do
  raise_if (not (draft.expected_new_cells == some cells)) cell_total
  raise_if (not (draft.expected_new_accepted_runs == some runs)) run_total
  raise_if (not (draft.expected_combined_new_runs_after_h2b == some (runs +ℤ pos 1740)))
      combined_total
  ok (cells, runs)

unfoldable pub validate_performance : Performance → Result ProtocolError (ℤ × ℤ)
validate_performance draft = do
  raise_if (not (draft.status == some "draft_no_data")) performance_status
  n ← elim draft.accepted_runs_per_cell [ none ↦ err bad_runs_per_cell | some n ↦ ok n ]
  raise_if (not (ltb_ℤ (pos 0) n)) bad_runs_per_cell
  raise_if (not (draft.visits_per_family *ℤ draft.accepted_runs_per_cell_per_visit == n))
      visits_mismatch
  raise_if (not (same_set (keys draft.new_families) (map family_name expected_families))) family_set
  found ← check_families draft.new_families expected_families
  raise_if (not (all_distinct found.1)) ids_not_unique
  check_totals draft (pos found.0) (pos found.0 *ℤ n)
