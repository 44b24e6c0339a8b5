-- ===== src/Tests/SealRuns.antt =====
-- Small trees, sealed and verified as seal_result_tree.py and verify_result_tree_seal.py do.
use qos_extended_mros2_esp.Base.{
  ℕ, none, List, [], ◌∷◌, length, ◌≡◌, refl, string_eq, option_eq, nat_eq, if◌then◌else◌,
}
use native.Mathlib.Decide.{ℕ_discrete}
use qos_extended_mros2_esp.Base.Int.{◌+ℤ◌, int_eq}
use qos_extended_mros2_esp.Base.Text.{codes, split_on, strip_prefix, text_le}
use qos_extended_mros2_esp.Base.Order.{sort_with, insert_with}
use qos_extended_mros2_esp.Seal.{
  File, Tree, Digests, parts_le, path_le, inventory, seal_of, write_manifest, tree_digest,
  row_bytes, sum_bytes, seal_tree,
}
use qos_extended_mros2_esp.Seal.Verify.{
  VerifyError, not_sorted, is_unsafe, read_rows, same_texts, has_duplicates, read_manifest, file_at,
  seal_errors, row_errors, tree_errors, errors_of_read, verify_files, verify,
}
use qos_extended_mros2_esp.Seal.Sound.{IsSound, verify-IsSound}
use qos_extended_mros2_esp.Seal.Paths.{IsTree}
use qos_extended_mros2_esp.Seal.RoundTrip.{sealed_paths, verify-seal_tree}

-- A digest that tells empty files from others, and stand-ins for the encodings.
abbrev digests : Digests
digests = record {
  sha256 = λ (bytes : List ℕ). elim bytes [ [] ↦ "empty" | byte ∷ more ↦ "filled" ];
  utf8 = codes;
  csv_bytes = λ manifest. length manifest.rows ∷ [];
}

abbrev trace : File
trace = record { path = "run/a.csv"; content = 7 ∷ 8 ∷ [] }

abbrev notes : File
notes = record { path = "notes"; content = [] }

abbrev small : Tree
small = record { files = trace ∷ notes ∷ []; manifest = none; seal = none }

-- A folder beside a file whose name goes on with a dot: sorted as paths, `run/a.csv` comes
-- first; sorted as texts, `run.log` does.
abbrev beside : File
beside = record { path = "run.log"; content = 9 ∷ [] }

abbrev dotted : Tree
dotted = record { files = trace ∷ beside ∷ []; manifest = none; seal = none }

verified : Tree → List VerifyError
unfolding verify verify_files errors_of_read tree_errors row_errors seal_errors file_at sum_bytes
    read_manifest has_duplicates same_texts read_rows is_unsafe inventory seal_of write_manifest
    tree_digest row_bytes seal_tree path_le parts_le split_on text_le sort_with insert_with
    string_eq option_eq int_eq nat_eq ◌+ℤ◌ ℕ_discrete strip_prefix
verified t = verify digests (seal_tree digests t)

tree_verifies : verify digests (seal_tree digests small) ≡ []
unfolding verified
tree_verifies = refl

dotted_fails : verify digests (seal_tree digests dotted) ≡ not_sorted ∷ []
unfolding verified
dotted_fails = refl

small-IsTree : IsTree small.files
unfolding is_unsafe has_duplicates split_on strip_prefix string_eq
small-IsTree = record { safe = (refl, (refl, tt)); distinct = refl }

verify-IsSound_example : IsSound digests (seal_tree digests small)
verify-IsSound_example = verify-IsSound digests (seal_tree digests small) tree_verifies

verify-seal_tree_example : verify digests (seal_tree digests small) ≡ (
    if same_texts
      (sealed_paths digests small.files)
      (sort_with text_le (sealed_paths digests small.files))
    then []
    else not_sorted ∷ [])
verify-seal_tree_example = verify-seal_tree digests small small-IsTree
