-- ===== src/Base/Order/Sort.antt =====
-- `sorted(xs, key=…)` for keys that are numbers: a stable insertion sort.
use qos_extended_mros2_esp.Base.Names.{ℕ, ◌≤◌, Bool, List, [], ◌∷◌, leb, if◌then◌else◌}
use qos_extended_mros2_esp.Base.Lists.{All}

module _ {ℓ} {A : Type ℓ} (key : A → ℕ) where
  -- Before the first element whose key is not smaller, so equal keys keep their order.
  unfoldable pub insert_by : A → List A → List A
  insert_by x [] = x ∷ []
  insert_by x (y ∷ ys) = if leb (key x) (key y) then x ∷ y ∷ ys else y ∷ insert_by x ys

  unfoldable pub sort_by : List A → List A
  unfolding insert_by
  sort_by [] = []
  sort_by (x ∷ xs) = insert_by x (sort_by xs)

  abbrev pub IsSorted : List A → Type 0
  IsSorted [] = Unit
  IsSorted (x ∷ xs) = All (λ y. key x ≤ key y) xs × IsSorted xs

-- The same, for any order that is given as a test.
module _ {ℓ} {A : Type ℓ} (le : A → A → Bool) where
  unfoldable pub insert_with : A → List A → List A
  insert_with x [] = x ∷ []
  insert_with x (y ∷ ys) = if le x y then x ∷ y ∷ ys else y ∷ insert_with x ys

  unfoldable pub sort_with : List A → List A
  unfolding insert_with
  sort_with [] = []
  sort_with (x ∷ xs) = insert_with x (sort_with xs)
