-- ===== src/Seal/Release.antt =====
-- seal_result_tree.py. A tree is the files that `rglob` lists, by their paths from the root, and
-- the two files of the seal as they are read back. SHA-256, the UTF-8 of a text and the bytes of
-- the manifest that the csv module writes are parameters.
use qos_extended_mros2_esp.Base.{
  ℕ, String, Bool, true, false, not, Option, some, List, [], ◌∷◌, map, length, filter, flat_map,
  ◌++◌, contains, ◌==◌, string_eq, if◌then◌else◌,
}
use qos_extended_mros2_esp.Base.Int.{ℤ, pos, ◌+ℤ◌}
use qos_extended_mros2_esp.Base.Number.{decimal}
use qos_extended_mros2_esp.Base.Text.{split_on, text_le}
use qos_extended_mros2_esp.Base.Order.{sort_with}

pub record File : Type 0 where
  pub path : String
  pub content : List ℕ

-- A row of the inventory, and of a manifest that was read.
pub record SealedRow : Type 0 where
  pub path : String
  pub bytes : ℤ
  pub sha256 : String

-- A row of the manifest. `bytes` is what `int` reads from the text, `none` where it raises.
pub record ManifestRow : Type 0 where
  pub path : String
  pub bytes : Option ℤ
  pub sha256 : String

pub record Manifest : Type 0 where
  pub fieldnames : List String
  pub rows : List ManifestRow

-- The keys of the seal that verification reads; a missing key is `none`.
pub record ReleaseSeal : Type 0 where
  pub classification : Option String
  pub excluded_files : List String
  pub file_manifest_sha256 : Option String
  pub file_count : Option ℕ
  pub total_bytes : Option ℤ
  pub tree_sha256 : Option String

pub record Tree : Type 0 where
  pub files : List File
  pub manifest : Option Manifest
  pub seal : Option ReleaseSeal

-- `EXCLUDED`, and `sorted(EXCLUDED)`
abbrev pub excluded : List String
excluded = "release_file_manifest.csv" ∷ "release_seal.json" ∷ []

abbrev pub is_excluded : String → Bool
is_excluded path = contains excluded path

-- The order of `Path`, which compares the parts of two paths from the left.
unfoldable pub parts_le : List String → List String → Bool
parts_le [] qs = true
parts_le (p ∷ ps) [] = false
parts_le (p ∷ ps) (q ∷ qs) = if p == q then parts_le ps qs else text_le p q

unfoldable pub path_le : String → String → Bool
path_le p q = parts_le (split_on b'/' p) (split_on b'/' q)

abbrev pub file_le : File → File → Bool
file_le f g = path_le f.path g.path

-- `sum(row["bytes"] for row in rows)`
unfoldable pub sum_bytes : List SealedRow → ℤ
sum_bytes [] = pos 0
sum_bytes (row ∷ rows) = row.bytes +ℤ sum_bytes rows

-- `write_manifest`: `int` reads back the number that is written.
abbrev pub written : SealedRow → ManifestRow
written row = record { path = row.path; bytes = some row.bytes; sha256 = row.sha256 }

abbrev pub header : List String
header = "path" ∷ "bytes" ∷ "sha256" ∷ []

unfoldable pub write_manifest : List SealedRow → Manifest
write_manifest rows = record { fieldnames = header; rows = map written rows }

-- What the scripts take of Python's library.
pub record Digests : Type 0 where
  pub sha256 : List ℕ → String
  pub utf8 : String → List ℕ
  pub csv_bytes : Manifest → List ℕ

module _ (D : Digests) where
  -- `sha256_file`, of the manifest that was written.
  abbrev pub manifest_sha256 : Manifest → String
  manifest_sha256 m = D.sha256 (D.csv_bytes m)

  -- The bytes of one row in `tree_digest`; those of a number are its decimal digits.
  unfoldable pub row_bytes : SealedRow → List ℕ
  row_bytes row =
      D.utf8 row.path ++ (0 ∷ (decimal row.bytes ++ (0 ∷ (D.utf8 row.sha256 ++ 10 ∷ []))))

  unfoldable pub tree_digest : List SealedRow → String
  tree_digest rows = D.sha256 (flat_map row_bytes rows)

  abbrev pub row_of : File → SealedRow
  row_of f = record { path = f.path; bytes = pos (length f.content); sha256 = D.sha256 f.content }

  -- The files that are sealed, in the order of the inventory.
  abbrev pub sealed_files : List File → List File
  sealed_files files = filter (λ (f : File). not (is_excluded f.path)) (sort_with file_le files)

  -- `inventory`: sorted as paths, without the files of the seal.
  unfoldable pub inventory : List File → List SealedRow
  inventory files = map row_of (sealed_files files)

  -- The dictionary `seal` of `main`.
  unfoldable pub seal_of : List SealedRow → ReleaseSeal
  seal_of rows = record {
    classification = some "experiment_result_tree_release_seal";
    excluded_files = excluded;
    file_manifest_sha256 = some (manifest_sha256 (write_manifest rows));
    file_count = some (length rows);
    total_bytes = some (sum_bytes rows);
    tree_sha256 = some (tree_digest rows);
  }

  -- `main`: writes the manifest and the seal.
  unfoldable pub seal_tree : Tree → Tree
  seal_tree t =
      let rows = inventory t.files in
      record { files = t.files; manifest = some (write_manifest rows); seal = some (seal_of rows) }
