-- ===== src/Base/Order/Laws.antt =====
-- A sort keeps the elements, and puts them in order.
use qos_extended_mros2_esp.Base.Names.{
  ℕ, ◌+◌, ◌≤◌, ◌≡◌, refl, ap, List, [], ◌∷◌, ◌∙◌, ◌||◌, Bool, arith, leb, Bool-cases, inl, inr,
}
use mathlib.Core.List.{Perm}
use mathlib.Core.List.Perm
use qos_extended_mros2_esp.Base.Lists.{All, any, length, All-mono}
use qos_extended_mros2_esp.Base.Order.Sort.{insert_by, sort_by, IsSorted, insert_with, sort_with}

module _ {ℓ} {A : Type ℓ} (key : A → ℕ) where
  insert_by-Perm : (x : A) (xs : List A) → Perm (insert_by key x xs) (x ∷ xs)
  unfolding insert_by
  insert_by-Perm x [] = Perm.refl (x ∷ [])
  insert_by-Perm x (y ∷ ys) = elim (Bool-cases (leb (key x) (key y))) [
    | inl first ↦ rw first (Perm.refl _)
    | inr later ↦ rw later (Perm.trans (Perm.cons y (insert_by-Perm x ys)) (Perm.swap x y ys))
  ]

  pub sort_by-Perm : (xs : List A) → Perm (sort_by key xs) xs
  unfolding sort_by
  sort_by-Perm [] = Perm.refl []
  sort_by-Perm (x ∷ xs) =
      Perm.trans (insert_by-Perm x (sort_by key xs)) (Perm.cons x (sort_by-Perm xs))

  insert_by-All :
      (P : A → Type 0) (x : A) (xs : List A) → P x → All P xs → All P (insert_by key x xs)
  unfolding insert_by
  insert_by-All P x [] p h = (p, tt)
  insert_by-All P x (y ∷ ys) p (q, h) = elim (Bool-cases (leb (key x) (key y))) [
    | inl first ↦ rw first (p, (q, h))
    | inr later ↦ rw later (q, insert_by-All P x ys p h)
  ]

  pub sort_by-All : (P : A → Type 0) (xs : List A) → All P xs → All P (sort_by key xs)
  unfolding sort_by
  sort_by-All P [] h = tt
  sort_by-All P (x ∷ xs) (p, h) = insert_by-All P x (sort_by key xs) p (sort_by-All P xs h)

  insert_by-IsSorted : (x : A) (xs : List A) → IsSorted key xs → IsSorted key (insert_by key x xs)
  unfolding insert_by
  insert_by-IsSorted x [] h = (tt, tt)
  insert_by-IsSorted x (y ∷ ys) (below, h) = elim (Bool-cases (leb (key x) (key y))) [
    | inl first ↦
        let le : key x ≤ key y = ground arith in
        rw first ((le, All-mono ys (λ z q. omega arith) below), (below, h))
    | inr later ↦
        let le : key y ≤ key x = ground arith in
        rw later (insert_by-All (λ z. key y ≤ key z) x ys le below, insert_by-IsSorted x ys h)
  ]

  pub sort_by-IsSorted : (xs : List A) → IsSorted key (sort_by key xs)
  unfolding sort_by
  sort_by-IsSorted [] = tt
  sort_by-IsSorted (x ∷ xs) = insert_by-IsSorted x (sort_by key xs) (sort_by-IsSorted xs)

  length-insert_by : (x : A) (xs : List A) → length (insert_by key x xs) ≡ length xs + 1
  unfolding insert_by
  length-insert_by x [] = omega arith
  length-insert_by x (y ∷ ys) = ground (arith, length-insert_by x ys)

  pub length-sort_by : (xs : List A) → length (sort_by key xs) ≡ length xs
  unfolding sort_by
  length-sort_by [] = refl
  length-sort_by (x ∷ xs) = omega (arith, length-insert_by x (sort_by key xs), length-sort_by xs)

  insert_by-All_inv :
      (P : A → Type 0) (x : A) (xs : List A) → All P (insert_by key x xs) → P x × All P xs
  unfolding insert_by
  insert_by-All_inv P x [] h = h
  insert_by-All_inv P x (y ∷ ys) h = elim (Bool-cases (leb (key x) (key y))) [
    | inl first ↦ let (p, more) : P x × All P (y ∷ ys) = rw first at h in (p, more)
    | inr later ↦
        let (q, more) : P y × All P (insert_by key x ys) = rw later at h in
        let (p, rest) = insert_by-All_inv P x ys more in (p, (q, rest))
  ]

  -- What holds of a sorted list's elements holds of the list's.
  pub sort_by-All_inv : (P : A → Type 0) (xs : List A) → All P (sort_by key xs) → All P xs
  unfolding sort_by
  sort_by-All_inv P [] h = tt
  sort_by-All_inv P (x ∷ xs) h =
      let (p, more) = insert_by-All_inv P x (sort_by key xs) h in (p, sort_by-All_inv P xs more)

  any-insert_by :
      (p : A → Bool) (x : A) (xs : List A) → any p (insert_by key x xs) ≡ (p x || any p xs)
  unfolding insert_by
  any-insert_by p x [] = refl
  any-insert_by p x (y ∷ ys) = ground (arith, any-insert_by p x ys)

  pub any-sort_by : (p : A → Bool) (xs : List A) → any p (sort_by key xs) ≡ any p xs
  unfolding sort_by
  any-sort_by p [] = refl
  any-sort_by p (x ∷ xs) =
      any-insert_by p x (sort_by key xs) ∙ ap (λ b. p x || b) (any-sort_by p xs)

module _ {ℓ} {A : Type ℓ} (le : A → A → Bool) where
  any-insert_with :
      (p : A → Bool) (x : A) (xs : List A) → any p (insert_with le x xs) ≡ (p x || any p xs)
  unfolding insert_with
  any-insert_with p x [] = refl
  any-insert_with p x (y ∷ ys) = ground (arith, any-insert_with p x ys)

  pub any-sort_with : (p : A → Bool) (xs : List A) → any p (sort_with le xs) ≡ any p xs
  unfolding sort_with
  any-sort_with p [] = refl
  any-sort_with p (x ∷ xs) =
      any-insert_with p x (sort_with le xs) ∙ ap (λ b. p x || b) (any-sort_with p xs)

  pub insert_with-All :
      (P : A → Type 0) (x : A) (xs : List A) → P x → All P xs → All P (insert_with le x xs)
  unfolding insert_with
  insert_with-All P x [] p h = (p, tt)
  insert_with-All P x (y ∷ ys) p (q, h) = elim (Bool-cases (le x y)) [
    | inl first ↦ rw first (p, (q, h))
    | inr later ↦ rw later (q, insert_with-All P x ys p h)
  ]

  pub sort_with-All : (P : A → Type 0) (xs : List A) → All P xs → All P (sort_with le xs)
  unfolding sort_with
  sort_with-All P [] h = tt
  sort_with-All P (x ∷ xs) (p, h) = insert_with-All P x (sort_with le xs) p (sort_with-All P xs h)

  insert_with-All_inv :
      (P : A → Type 0) (x : A) (xs : List A) → All P (insert_with le x xs) → P x × All P xs
  unfolding insert_with
  insert_with-All_inv P x [] h = h
  insert_with-All_inv P x (y ∷ ys) h = elim (Bool-cases (le x y)) [
    | inl first ↦ let (p, more) : P x × All P (y ∷ ys) = rw first at h in (p, more)
    | inr later ↦
        let (q, more) : P y × All P (insert_with le x ys) = rw later at h in
        let (p, rest) = insert_with-All_inv P x ys more in (p, (q, rest))
  ]

  pub sort_with-All_inv : (P : A → Type 0) (xs : List A) → All P (sort_with le xs) → All P xs
  unfolding sort_with
  sort_with-All_inv P [] h = tt
  sort_with-All_inv P (x ∷ xs) h =
      let (p, more) = insert_with-All_inv P x (sort_with le xs) h in
      (p, sort_with-All_inv P xs more)

  length-insert_with : (x : A) (xs : List A) → length (insert_with le x xs) ≡ length xs + 1
  unfolding insert_with
  length-insert_with x [] = refl
  length-insert_with x (y ∷ ys) = ground (arith, length-insert_with x ys)

  pub length-sort_with : (xs : List A) → length (sort_with le xs) ≡ length xs
  unfolding sort_with
  length-sort_with [] = refl
  length-sort_with (x ∷ xs) =
      omega (arith, length-insert_with x (sort_with le xs), length-sort_with xs)
