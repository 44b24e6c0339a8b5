-- ===== src/Protocol/Paths.antt =====
-- Every corner of a family is reached from its anchor, one factor at a time.
use qos_extended_mros2_esp.Base.{
  ◌≤◌, ◌≡◌, refl, String, true, not, Option, none, some, List, [], ◌∷◌, length, filter, any, All,
  Any, any-Any, ltb, arith, option_eq,
}
use qos_extended_mros2_esp.Base.Result.{ok, raise_if, >>=-eq-ok, raise_if-eq-ok}
use qos_extended_mros2_esp.Protocol.{
  value_eq, Cell, few_factors, missing_main_cell, factor, is_anchor, is_corner, changed_factors,
  main_value, has_main_values, check_changed, check_corners, paths_from, validate_interaction_paths,
  check_paths,
}

-- The cell is the anchor, but for one factor that it has from the corner.
abbrev pub IsMainCell : Cell → Cell → String → List String → Cell → Type 0
IsMainCell anchor corner changed factors cell =
    All (λ name. factor cell name ≡ main_value anchor corner changed name) factors

-- The corner differs in two factors or more, and each is varied alone by a cell that is no corner.
abbrev pub IsReached : List Cell → Cell → List String → Cell → Type 0
IsReached cells anchor factors corner =
    (2 ≤ length (changed_factors anchor corner factors))
    × All
        (λ changed.
          Any (IsMainCell anchor corner changed factors)
            (filter (λ cell. not (is_corner cell)) cells))
        (changed_factors anchor corner factors)

-- There is one anchor, from which every corner is reached.
abbrev pub IsConnected : List Cell → List String → Type 0
IsConnected cells factors =
    (anchor : Cell) × (filter is_anchor cells ≡ anchor ∷ [])
    × All (IsReached cells anchor factors) (filter is_corner cells)

abbrev pub ArePaths : Option (List String) → List Cell → Type 0
ArePaths none cells = Unit
ArePaths (some factors) cells = IsConnected cells factors

has_main_values-IsMainCell :
    (anchor corner : Cell) (changed : String) (factors : List String) (cell : Cell)
    → has_main_values anchor corner changed factors cell ≡ true
    → IsMainCell anchor corner changed factors cell
unfolding has_main_values
has_main_values-IsMainCell anchor corner changed [] cell h = tt
has_main_values-IsMainCell anchor corner changed (name ∷ factors) cell h = (
  ground (arith, h),
  has_main_values-IsMainCell anchor corner changed factors cell (ground (arith, h)),
)

check_changed-eq-ok :
    (others : List Cell) (anchor corner : Cell) (factors changed : List String) {u : Unit {0}}
    → check_changed others anchor corner factors changed ≡ ok u
    → All (λ name. Any (IsMainCell anchor corner name factors) others) changed
unfolding check_changed
check_changed-eq-ok others anchor corner factors [] h = tt
check_changed-eq-ok others anchor corner factors (name ∷ more) h =
    let absent = not (any (has_main_values anchor corner name factors) others) in
    let (_, there, rest) = >>=-eq-ok (raise_if absent missing_main_cell) _ h in
    (
      any-Any (has_main_values anchor corner name factors) others
          (has_main_values-IsMainCell anchor corner name factors)
          (ground (arith, raise_if-eq-ok absent missing_main_cell there)),
      check_changed-eq-ok others anchor corner factors more rest,
    )

check_corners-eq-ok :
    (cells : List Cell) (anchor : Cell) (factors : List String) (corners : List Cell) {u : Unit {0}}
    → check_corners (filter (λ cell. not (is_corner cell)) cells) anchor factors corners ≡ ok u
    → All (IsReached cells anchor factors) corners
unfolding check_corners
check_corners-eq-ok cells anchor factors [] h = tt
check_corners-eq-ok cells anchor factors (corner ∷ corners) h =
    let few = ltb (length (changed_factors anchor corner factors)) 2 in
    let (_, two, h1) = >>=-eq-ok (raise_if few few_factors) _ h in
    let (_, changed, rest) =
      >>=-eq-ok
        (check_changed (filter (λ cell. not (is_corner cell)) cells) anchor corner factors
          (changed_factors anchor corner factors))
        _ h1 in
    (
      (
        ground (arith, raise_if-eq-ok few few_factors two),
        check_changed-eq-ok _ anchor corner factors _ changed,
      ),
      check_corners-eq-ok cells anchor factors corners rest,
    )

paths_from-eq-ok :
    (cells : List Cell) (factors : List String) (anchors : List Cell) {u : Unit {0}}
    → filter is_anchor cells ≡ anchors
    → paths_from cells factors anchors ≡ ok u
    → IsConnected cells factors
unfolding paths_from
paths_from-eq-ok cells factors [] there h = absurd (ground arith)
paths_from-eq-ok cells factors (anchor ∷ []) there h =
    (anchor, there, check_corners-eq-ok cells anchor factors _ h)
paths_from-eq-ok cells factors (anchor ∷ other ∷ more) there h = absurd (ground arith)

pub check_paths-ArePaths :
    (factors : Option (List String)) (cells : List Cell) {u : Unit {0}}
    → check_paths factors cells ≡ ok u
    → ArePaths factors cells
unfolding check_paths validate_interaction_paths
check_paths-ArePaths none cells h = tt
check_paths-ArePaths (some factors) cells h =
    paths_from-eq-ok cells factors (filter is_anchor cells) refl h
