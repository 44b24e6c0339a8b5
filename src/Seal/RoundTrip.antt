-- ===== src/Seal/RoundTrip.antt =====
-- When a tree that was just sealed verifies.
use qos_extended_mros2_esp.Base.{
  String, Bool, true, false, not, some, List, [], ◌∷◌, ◌≡◌, refl, sym, ◌∙◌, ap, map, length,
  flat_map, contains, ◌==◌, string_eq, option_eq, nat_eq, if◌then◌else◌, All, All-mono, All-filter,
  arith, filter_none, Eq,
}
use qos_extended_mros2_esp.Base.Int.{int_eq}
use qos_extended_mros2_esp.Base.Text.{text_le}
use qos_extended_mros2_esp.Base.Order.{sort_with, sort_with-All}
use qos_extended_mros2_esp.Base.Result.{ok, err, raise_if, ◌>>=◌}
use qos_extended_mros2_esp.Seal.Release.{
  File, Manifest, ReleaseSeal, Tree, Digests, excluded, file_le, row_of, inventory, sealed_files,
  write_manifest, written, SealedRow, sum_bytes, tree_digest, manifest_sha256, seal_of, seal_tree,
}
use qos_extended_mros2_esp.Seal.Verify.{
  VerifyError, is_unsafe, read_rows, same_texts, has_duplicates, read_manifest, sealed_path,
  error_if, file_at, seal_errors, actual_paths, only_in, row_errors, tree_errors, errors_of_read,
  verify_files, verify, not_sorted, duplicate_paths, differ_as_sets, classification_mismatch,
  manifest_hash_mismatch, file_count_mismatch, total_bytes_mismatch, tree_digest_mismatch,
}
use qos_extended_mros2_esp.Seal.Paths.{
  path_of, IsTree, is_sealed, has_duplicates-sort_with, has_duplicates-filter, sealed_found,
  contains_self, same_paths,
}

error_if_nil {ℓ} :
    {A : Type ℓ} ⦃eq : Eq A⦄ (a b : A) (error : VerifyError)
    → a ≡ b
    → error_if (not (a == b)) error ≡ []
error_if_nil a b error h = ground arith

excluded_same : differ_as_sets excluded excluded ≡ false
unfolding string_eq
excluded_same = refl

header_same :
    same_texts ("path" ∷ "bytes" ∷ "sha256" ∷ []) ("path" ∷ "bytes" ∷ "sha256" ∷ []) ≡ true
unfolding same_texts string_eq
header_same = refl

-- The two remaining tests of `read_manifest`, of which the second passes.
sorted_or_not :
    (sorted : Bool) (rows : List SealedRow)
    → (raise_if (not sorted) not_sorted >>= λ _. raise_if false duplicate_paths >>= λ _. ok rows)
      ≡ (if sorted then ok rows else err not_sorted)
sorted_or_not true rows = refl
sorted_or_not false rows = refl

module _ (D : Digests) where
  -- `read_manifest` reads back what `inventory` wrote.
  read_rows-row_of :
      (files : List File)
      → All (λ f. is_unsafe f.path ≡ false) files
      → read_rows (map (written) (map (row_of D) files)) ≡ ok (map (row_of D) files)
  unfolding read_rows
  read_rows-row_of [] h = refl
  read_rows-row_of (f ∷ files) (safe, h) = rw (safe, read_rows-row_of files h)

  paths_of_rows : (files : List File) → map sealed_path (map (row_of D) files) ≡ map path_of files
  paths_of_rows [] = refl
  paths_of_rows (f ∷ files) = ap (λ ps. f.path ∷ ps) (paths_of_rows files)

  row_error_none :
      (files : List File) (f : File)
      → file_at f.path files ≡ some f
      → row_errors D files ((row_of D) f) ≡ []
  unfolding row_errors
  row_error_none files f found = ground arith

  row_errors_none :
      (files sealed : List File)
      → All (λ (f : File). file_at f.path files ≡ some f) sealed
      → flat_map (row_errors D files) (map (row_of D) sealed) ≡ []
  row_errors_none files [] h = refl
  row_errors_none files (f ∷ sealed) (found, h) =
      rw (row_error_none files f found) (row_errors_none files sealed h)

  only_in_none : (xs ys : List String) → All (λ x. contains ys x ≡ true) xs → only_in D xs ys ≡ []
  only_in_none xs ys h =
      filter_none _ _ (All-mono _ (λ x there. ground arith) (sort_with-All text_le _ xs h))

  seal_errors_none :
      (m : Manifest) (rows : List SealedRow) (seal : ReleaseSeal)
      → seal.classification ≡ some "experiment_result_tree_release_seal"
      → seal.excluded_files ≡ excluded
      → seal.file_manifest_sha256 ≡ some (manifest_sha256 D m)
      → seal.file_count ≡ some (length rows)
      → seal.total_bytes ≡ some (sum_bytes rows)
      → seal.tree_sha256 ≡ some (tree_digest D rows)
      → seal_errors D m rows seal ≡ []
  unfolding seal_errors
  seal_errors_none m rows seal a b c d e f = rw (
    error_if_nil seal.classification (some "experiment_result_tree_release_seal")
        classification_mismatch a,
    b,
    excluded_same,
    error_if_nil seal.file_manifest_sha256 (some (manifest_sha256 D m)) manifest_hash_mismatch c,
    error_if_nil seal.file_count (some (length rows)) file_count_mismatch d,
    error_if_nil seal.total_bytes (some (sum_bytes rows)) total_bytes_mismatch e,
    error_if_nil seal.tree_sha256 (some (tree_digest D rows)) tree_digest_mismatch f,
  )

  -- The paths of the sealed files, in the order of the inventory.
  abbrev pub sealed_paths : List File → List String
  sealed_paths files = map path_of (sealed_files D files)

  read_manifest_sealed :
      (files : List File)
      → IsTree files
      → read_manifest (write_manifest (inventory D files)) ≡ (
          if same_texts (sealed_paths files) (sort_with text_le (sealed_paths files))
          then ok (map (row_of D) (sealed_files D files))
          else err not_sorted)
  unfolding read_manifest inventory write_manifest
  read_manifest_sealed files tree =
      let sealed = sealed_files D files in
      let safe = All-filter _ (is_sealed D) _ (sort_with-All file_le _ files tree.safe) in
      let distinct : has_duplicates (map path_of sealed) ≡ false =
        has_duplicates-filter D (sort_with file_le files)
          (has_duplicates-sort_with D files ∙ tree.distinct) in
      rw (header_same, read_rows-row_of sealed safe, paths_of_rows sealed, distinct)
        (sorted_or_not (same_texts (sealed_paths files) (sort_with text_le (sealed_paths files)))
          (map (row_of D) sealed))

  seal_of-clean :
      (files : List File)
      → seal_errors D
          (write_manifest (inventory D files))
          (map (row_of D) (sealed_files D files))
          (seal_of D (inventory D files))
        ≡ []
  unfolding seal_of inventory
  seal_of-clean files =
      seal_errors_none (write_manifest (inventory D files)) (inventory D files)
        (seal_of D (inventory D files)) refl refl refl refl refl refl

  tree_errors_sealed :
      (files : List File)
      → IsTree files
      → tree_errors D
          (write_manifest (inventory D files))
          (map (row_of D) (sealed_files D files))
          (seal_of D (inventory D files))
          files
        ≡ []
  unfolding tree_errors
  tree_errors_sealed files tree =
      let sealed = sealed_files D files in
      let present =
        All-mono _ (λ p there. sym (same_paths D p files) ∙ there)
          (contains_self D (map path_of sealed)) in
      let known =
        All-mono _ (λ p there. same_paths D p files ∙ there)
          (contains_self D (actual_paths D files)) in
      rw (
        seal_of-clean files,
        paths_of_rows sealed,
        only_in_none (map path_of sealed) (actual_paths D files) present,
        only_in_none (actual_paths D files) (map path_of sealed) known,
        row_errors_none files sealed (sealed_found D files tree.distinct),
      )

  errors_of_read_if :
      (m : Manifest) (seal : ReleaseSeal) (files : List File) (rows : List SealedRow)
      (sorted : Bool)
      → tree_errors D m rows seal files ≡ []
      → errors_of_read D m seal files (if sorted then ok rows else err not_sorted)
        ≡ (if sorted then [] else not_sorted ∷ [])
  unfolding errors_of_read
  errors_of_read_if m seal files rows true h = h
  errors_of_read_if m seal files rows false h = refl

  -- A tree of safe paths, each occurring once, that was just sealed verifies with no error if the
  -- paths of its inventory, which stand in the order of `Path`, also stand in the order of texts.
  -- If they do not, verification fails with the one error that the manifest is not sorted.
  pub verify-seal_tree :
      (t : Tree)
      → IsTree t.files
      → verify D (seal_tree D t) ≡ (
          if same_texts (sealed_paths t.files) (sort_with text_le (sealed_paths t.files))
          then []
          else not_sorted ∷ [])
  unfolding verify verify_files seal_tree
  verify-seal_tree t tree = rw (read_manifest_sealed t.files tree) (
      errors_of_read_if (write_manifest (inventory D t.files)) (seal_of D (inventory D t.files))
        t.files (map (row_of D) (sealed_files D t.files))
        (same_texts (sealed_paths t.files) (sort_with text_le (sealed_paths t.files)))
        (tree_errors_sealed t.files tree))
