-- ===== src/Seal/Sound.antt =====
-- What a tree that verifies holds.
use qos_extended_mros2_esp.Base.{
  Eq, Option-cases, Bool-cases, String, true, not, Option, none, some, List, [], ◌∷◌, ◌≡◌, ◌≢◌, ◌⊎◌,
  inl, inr, refl, map, length, contains, ◌==◌, string_eq, option_eq, nat_eq, All, All-mono, arith,
  append-eq-nil, map-eq-nil, flat_map-eq-nil, filter-eq-nil,
}
use qos_extended_mros2_esp.Base.Int.{pos, int_eq}
use qos_extended_mros2_esp.Base.Text.{text_le}
use qos_extended_mros2_esp.Base.Order.{sort_with-All_inv}
use qos_extended_mros2_esp.Base.Result.{Result, ok, err}
use qos_extended_mros2_esp.Seal.Release.{
  SealedRow, sum_bytes, tree_digest, manifest_sha256, File, Manifest, ReleaseSeal, Tree, Digests,
  is_excluded,
}
use qos_extended_mros2_esp.Seal.Verify.{
  VerifyError, read_manifest, sealed_path, error_if, file_at, seal_errors, actual_paths, only_in,
  row_errors, tree_errors, errors_of_read, verify_files, verify,
}

error_if-eq-nil {ℓ} :
    {A : Type ℓ} ⦃eq : Eq A⦄ (a b : A) (error : VerifyError)
    → error_if (not (a == b)) error ≡ []
    → a ≡ b
error_if-eq-nil a b error h = ground arith

module _ (D : Digests) where
  -- The seal states the manifest's digest and totals.
  abbrev pub MatchesSeal : Manifest → List SealedRow → ReleaseSeal → Type 0
  MatchesSeal m rows seal =
      (seal.file_manifest_sha256 ≡ some (manifest_sha256 D m))
      × (seal.file_count ≡ some (length rows))
      × (seal.total_bytes ≡ some (sum_bytes rows))
      × (seal.tree_sha256 ≡ some (tree_digest D rows))

  -- The file of a row, with the row's size and digest.
  abbrev pub IsIntact : List File → SealedRow → Type 0
  IsIntact files row =
      (f : File) × (file_at row.path files ≡ some f)
      × (pos (length f.content) ≡ row.bytes)
      × (D.sha256 f.content ≡ row.sha256)

  -- The file is a seal file, or the manifest lists it.
  abbrev pub IsListed : List SealedRow → File → Type 0
  IsListed rows f = (is_excluded f.path ≡ true) ⊎ (contains (map sealed_path rows) f.path ≡ true)

  pub record IsSound (t : Tree) : Type 0 where
    pub manifest : Manifest
    pub seal : ReleaseSeal
    pub rows : List SealedRow
    pub manifest_is : t.manifest ≡ some manifest
    pub seal_is : t.seal ≡ some seal
    pub rows_are : read_manifest manifest ≡ ok rows
    pub sealed : MatchesSeal manifest rows seal
    pub intact : All (IsIntact t.files) rows
    pub listed : All (IsListed rows) t.files

  seal_errors-MatchesSeal :
      (m : Manifest) (rows : List SealedRow) (seal : ReleaseSeal)
      → seal_errors D m rows seal ≡ []
      → MatchesSeal m rows seal
  unfolding seal_errors
  seal_errors-MatchesSeal m rows seal h =
      let (_, h2) = append-eq-nil _ _ h in
      let (_, h3) = append-eq-nil _ _ h2 in
      let (digest, h4) = append-eq-nil _ _ h3 in
      let (count, h5) = append-eq-nil _ _ h4 in
      let (bytes, tree) = append-eq-nil _ _ h5 in
      (
        error_if-eq-nil seal.file_manifest_sha256 (some (manifest_sha256 D m)) _ digest,
        error_if-eq-nil seal.file_count (some (length rows)) _ count,
        error_if-eq-nil seal.total_bytes (some (sum_bytes rows)) _ bytes,
        error_if-eq-nil seal.tree_sha256 (some (tree_digest D rows)) _ tree,
      )

  only_in-eq-nil : (xs ys : List String) → only_in D xs ys ≡ [] → All (λ x. contains ys x ≡ true) xs
  only_in-eq-nil xs ys h =
      sort_with-All_inv text_le _ xs
        (All-mono _ (λ x out. ground arith) (filter-eq-nil (λ x. not (contains ys x)) _ h))

  file_at-actual :
      (path : String) (files : List File)
      → contains (actual_paths D files) path ≡ true
      → file_at path files ≢ none
  unfolding file_at
  file_at-actual path [] h = ground arith
  file_at-actual path (f ∷ files) h = ground (arith, file_at-actual path files)

  row_errors-IsIntact :
      (files : List File) (row : SealedRow)
      → row_errors D files row ≡ []
      → file_at row.path files ≢ none
      → IsIntact files row
  unfolding row_errors
  row_errors-IsIntact files row h there = elim (Option-cases (file_at row.path files)) [
    | inl absent ↦ absurd (there absent)
    | inr (f, found) ↦ (f, found, ground arith, ground arith)
  ]

  tree_rows-IsIntact :
      (files : List File) (rows : List SealedRow)
      → All (λ row. row_errors D files row ≡ []) rows
      → All (λ path. contains (actual_paths D files) path ≡ true) (map sealed_path rows)
      → All (IsIntact files) rows
  tree_rows-IsIntact files [] clean present = tt
  tree_rows-IsIntact files (row ∷ rows) (clean, more) (there, others) = (
    row_errors-IsIntact files row clean (file_at-actual row.path files there),
    tree_rows-IsIntact files rows more others,
  )

  tree_files-IsListed :
      (files : List File) (rows : List SealedRow)
      → All (λ path. contains (map sealed_path rows) path ≡ true) (actual_paths D files)
      → All (IsListed rows) files
  tree_files-IsListed [] rows h = tt
  tree_files-IsListed (f ∷ files) rows h = elim (Bool-cases (is_excluded f.path)) [
    | inl seal_file ↦ (inl seal_file, tree_files-IsListed files rows (rw seal_file at h))
    | inr other ↦
        let (there, more) : (contains (map sealed_path rows) f.path ≡ true)
            × All (λ path. contains (map sealed_path rows) path ≡ true) (actual_paths D files) =
          rw other at h in
        (inr there, tree_files-IsListed files rows more)
  ]

  tree_errors-IsSound :
      (files : List File) (m : Manifest) (seal : ReleaseSeal) (rows : List SealedRow)
      → read_manifest m ≡ ok rows
      → tree_errors D m rows seal files ≡ []
      → IsSound (record { files = files; manifest = some m; seal = some seal })
  unfolding tree_errors
  tree_errors-IsSound files m seal rows read h =
      let manifest_paths = map sealed_path rows in
      let (no_seal_error, h2) = append-eq-nil _ _ h in
      let (none_missing, h3) = append-eq-nil _ _ h2 in
      let (none_extra, no_row_error) = append-eq-nil _ _ h3 in
      let present =
        only_in-eq-nil manifest_paths (actual_paths D files) (map-eq-nil _ _ none_missing) in
      let known =
        only_in-eq-nil (actual_paths D files) manifest_paths (map-eq-nil _ _ none_extra) in
      record {
        manifest = m;
        seal = seal;
        rows = rows;
        manifest_is = refl;
        seal_is = refl;
        rows_are = read;
        sealed = seal_errors-MatchesSeal m rows seal no_seal_error;
        intact = tree_rows-IsIntact files rows (flat_map-eq-nil _ rows no_row_error) present;
        listed = tree_files-IsListed files rows known;
      }

  errors_of_read-IsSound :
      (files : List File) (m : Manifest) (seal : ReleaseSeal)
      (read : Result VerifyError (List SealedRow))
      → read_manifest m ≡ read
      → errors_of_read D m seal files read ≡ []
      → IsSound (record { files = files; manifest = some m; seal = some seal })
  unfolding errors_of_read
  errors_of_read-IsSound files m seal (err error) e h = absurd (ground arith)
  errors_of_read-IsSound files m seal (ok rows) e h = tree_errors-IsSound files m seal rows e h

  verify_files-IsSound :
      (manifest : Option Manifest) (seal : Option ReleaseSeal) (files : List File)
      → verify_files D manifest seal files ≡ []
      → IsSound (record { files = files; manifest = manifest; seal = seal })
  unfolding verify_files
  verify_files-IsSound none seal files h = absurd (ground arith)
  verify_files-IsSound (some m) none files h = absurd (ground arith)
  verify_files-IsSound (some m) (some seal) files h =
      errors_of_read-IsSound files m seal (read_manifest m) refl h

  -- A tree that verifies with no error has a manifest and a seal that agree on digest, number of
  -- files, bytes and tree digest. Each row of the manifest has its file, of the row's size and
  -- SHA-256, and each file but the seal's own two is listed in the manifest.
  pub verify-IsSound : (t : Tree) → verify D t ≡ [] → IsSound t
  unfolding verify
  verify-IsSound t h = verify_files-IsSound t.manifest t.seal t.files h
