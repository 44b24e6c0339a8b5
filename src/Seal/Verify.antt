-- ===== src/Seal/Verify.antt =====
-- verify_result_tree_seal.py.
use qos_extended_mros2_esp.Base.{
  String, Bool, true, false, not, ◌&&◌, ◌||◌, Option, none, some, List, [], ◌∷◌, ◌++◌, map, length,
  filter, flat_map, contains, ◌==◌, string_eq, option_eq, nat_eq, if◌then◌else◌,
}
use qos_extended_mros2_esp.Base.Int.{pos, int_eq}
use qos_extended_mros2_esp.Base.Text.{split_on, starts_with, text_le}
use qos_extended_mros2_esp.Base.Order.{sort_with}
use qos_extended_mros2_esp.Base.Result.{Result, ok, err, ◌>>=◌, ◌>>◌, raise_if}
use qos_extended_mros2_esp.Seal.Release.{
  File, SealedRow, sum_bytes, tree_digest, manifest_sha256, ManifestRow, Manifest, ReleaseSeal,
  Tree, Digests, excluded, is_excluded,
}

-- The messages of the report.
pub data VerifyError : Type 0 where
  missing_seal_files schema_mismatch not_sorted duplicate_paths : VerifyError
  unsafe_path invalid_byte_count : String → VerifyError
  classification_mismatch exclusion_mismatch manifest_hash_mismatch : VerifyError
  file_count_mismatch total_bytes_mismatch tree_digest_mismatch : VerifyError
  file_missing unsealed_extra size_mismatch hash_mismatch : String → VerifyError

-- `relative.is_absolute() or ".." in relative.parts`
unfoldable pub is_unsafe : String → Bool
is_unsafe path = starts_with path "/" || contains (split_on b'/' path) ".."

-- The loop over the rows of the file.
unfoldable pub read_rows : List ManifestRow → Result VerifyError (List SealedRow)
read_rows [] = ok []
read_rows (row ∷ rows) =
    let rest = read_rows rows in
    if is_unsafe row.path then err (unsafe_path row.path) else elim row.bytes [
      | none ↦ err (invalid_byte_count row.path)
      | some size ↦ rest >>= λ sealed.
          ok ((record { path = row.path; bytes = size; sha256 = row.sha256 }) ∷ sealed)
    ]

-- `==` on lists of texts
unfoldable pub same_texts : List String → List String → Bool
same_texts [] [] = true
same_texts [] (y ∷ ys) = false
same_texts (x ∷ xs) [] = false
same_texts (x ∷ xs) (y ∷ ys) = x == y && same_texts xs ys

-- `len(paths) != len(set(paths))`
unfoldable pub has_duplicates : List String → Bool
has_duplicates [] = false
has_duplicates (x ∷ xs) = contains xs x || has_duplicates xs

abbrev pub sealed_path : SealedRow → String
sealed_path row = row.path

unfoldable pub read_manifest : Manifest → Result VerifyError (List SealedRow)
read_manifest m = do
  raise_if (not (same_texts m.fieldnames ("path" ∷ "bytes" ∷ "sha256" ∷ []))) schema_mismatch
  rows ← read_rows m.rows
  let paths = map sealed_path rows
  raise_if (not (same_texts paths (sort_with text_le paths))) not_sorted
  raise_if (has_duplicates paths) duplicate_paths
  ok rows

-- `errors.append(error)` under a test
abbrev pub error_if : Bool → VerifyError → List VerifyError
error_if true error = error ∷ []
error_if false error = []

abbrev pub all_in : List String → List String → Bool
all_in [] ys = true
all_in (x ∷ xs) ys = contains ys x && all_in xs ys

-- `!=` on the sets of two lists
abbrev pub differ_as_sets : List String → List String → Bool
differ_as_sets xs ys = not (all_in xs ys && all_in ys xs)

-- `root / path`, if it is a file. The paths of the manifest are taken to be in normal form.
unfoldable pub file_at : String → List File → Option File
file_at path [] = none
file_at path (f ∷ files) = if path == f.path then some f else file_at path files

module _ (D : Digests) where
  -- The six tests of the seal.
  unfoldable pub seal_errors : Manifest → List SealedRow → ReleaseSeal → List VerifyError
  seal_errors m rows seal =
      error_if (not (seal.classification == some "experiment_result_tree_release_seal"))
        classification_mismatch
      ++ (error_if (differ_as_sets seal.excluded_files excluded) exclusion_mismatch
          ++ (error_if (not (seal.file_manifest_sha256 == some (manifest_sha256 D m)))
                manifest_hash_mismatch
              ++ (error_if (not (seal.file_count == some (length rows))) file_count_mismatch
                  ++ (error_if (not (seal.total_bytes == some (sum_bytes rows)))
                        total_bytes_mismatch
                      ++ error_if (not (seal.tree_sha256 == some (tree_digest D rows)))
                          tree_digest_mismatch))))

  abbrev pub actual_paths : List File → List String
  actual_paths files = filter (λ path. not (is_excluded path)) (map (λ (f : File). f.path) files)

  -- `sorted(xs - ys)`
  abbrev pub only_in : List String → List String → List String
  only_in xs ys = filter (λ x. not (contains ys x)) (sort_with text_le xs)

  -- The errors of one row, and whether the row counts as verified.
  unfoldable pub row_errors : List File → SealedRow → List VerifyError
  row_errors files row = elim (file_at row.path files) [
    | none ↦ []
    | some f ↦
        if not (pos (length f.content) == row.bytes)
        then size_mismatch row.path ∷ []
        else if not (D.sha256 f.content == row.sha256)
        then hash_mismatch row.path ∷ []
        else []
  ]

  -- The errors that `verify` collects once the manifest is read.
  unfoldable pub tree_errors :
      Manifest → List SealedRow → ReleaseSeal → List File → List VerifyError
  tree_errors m rows seal files =
      let manifest_paths = map sealed_path rows in
      let actual = actual_paths files in
      seal_errors m rows seal
      ++ (map file_missing (only_in manifest_paths actual)
          ++ (map unsealed_extra (only_in actual manifest_paths)
              ++ flat_map (row_errors files) rows))

  -- An exception of `read_manifest` is the only error of its report.
  unfoldable pub errors_of_read :
      Manifest → ReleaseSeal → List File → Result VerifyError (List SealedRow) → List VerifyError
  errors_of_read m seal files (err error) = error ∷ []
  errors_of_read m seal files (ok rows) = tree_errors m rows seal files

  unfoldable pub verify_files : Option Manifest → Option ReleaseSeal → List File → List VerifyError
  verify_files none seal files = missing_seal_files ∷ []
  verify_files (some m) none files = missing_seal_files ∷ []
  verify_files (some m) (some seal) files = errors_of_read m seal files (read_manifest m)

  -- `errors` of the report; the status is PASS when there are none.
  unfoldable pub verify : Tree → List VerifyError
  verify t = verify_files t.manifest t.seal t.files
