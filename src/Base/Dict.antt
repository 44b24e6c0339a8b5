-- ===== src/Base/Dict.antt =====
-- Python's dict in insertion order, as an association list.
use qos_extended_mros2_esp.Base.Names.{
  ◌≡◌, refl, Option, none, some, List, [], ◌∷◌, ◌++◌, arith, if◌then◌else◌,
}
use qos_extended_mros2_esp.Base.Equality.{Eq, ◌==◌}

abbrev pub Dict {ℓ κ} : Type ℓ → Type κ → Type (ℓ ⊔ κ)
Dict K V = List (K × V)

abbrev pub keys {ℓ κ} : {K : Type ℓ} {V : Type κ} → Dict K V → List K
keys [] = []
keys ((k, v) ∷ d) = k ∷ keys d

abbrev pub values {ℓ κ} : {K : Type ℓ} {V : Type κ} → Dict K V → List V
values [] = []
values ((k, v) ∷ d) = v ∷ values d

module _ {ℓ κ} {K : Type ℓ} {V : Type κ} ⦃e : Eq K⦄ where
  -- `d.get(k)`
  abbrev pub lookup : K → Dict K V → Option V
  lookup k [] = none
  lookup k ((j, v) ∷ d) = if k == j then some v else lookup k d

  -- `d[k] = v`
  abbrev pub insert : K → V → Dict K V → Dict K V
  insert k v [] = (k, v) ∷ []
  insert k v ((j, w) ∷ d) = if k == j then (j, v) ∷ d else (j, w) ∷ insert k v d

  -- `d.setdefault(k, v)`, as a statement
  abbrev pub setdefault : K → V → Dict K V → Dict K V
  setdefault k v [] = (k, v) ∷ []
  setdefault k v ((j, w) ∷ d) = (j, w) ∷ (if k == j then d else setdefault k v d)

  -- `d[k].append(v)` on a `defaultdict(list)`
  abbrev pub push : K → V → Dict K (List V) → Dict K (List V)
  push k v [] = (k, v ∷ []) ∷ []
  push k v ((j, vs) ∷ d) = if k == j then (j, vs ++ v ∷ []) ∷ d else (j, vs) ∷ push k v d

  pub lookup-insert :
      (j k : K) (v : V) (d : Dict K V)
      → lookup j (insert k v d) ≡ (if j == k then some v else lookup j d)
  lookup-insert j k v [] = refl
  lookup-insert j k v (_ ∷ d) = ground (arith, lookup-insert j k v d)

  -- The entry that is there stays.
  pub lookup-setdefault :
      (j k : K) (v : V) (d : Dict K V)
      → lookup j (setdefault k v d)
        ≡ elim (lookup j d) [ some w ↦ some w | none ↦ if j == k then some v else none ]
  lookup-setdefault j k v [] = ground arith
  lookup-setdefault j k v (_ ∷ d) = ground (arith, lookup-setdefault j k v d)

  -- No key is listed twice.
  abbrev pub NodupKeys : Dict K V → Type κ
  NodupKeys [] = Unit
  NodupKeys ((k, _) ∷ d) = (lookup k d ≡ none) × NodupKeys d

  pub setdefault-NodupKeys :
      (k : K) (v : V) (d : Dict K V) → NodupKeys d → NodupKeys (setdefault k v d)
  setdefault-NodupKeys k v [] h = (refl, tt)
  setdefault-NodupKeys k v ((j, w) ∷ d) (fresh, u) =
      ground (arith, setdefault-NodupKeys k v d u, lookup-setdefault j k v d)
