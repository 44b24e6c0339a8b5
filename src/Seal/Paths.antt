-- ===== src/Seal/Paths.antt =====
-- The paths of a tree, of its inventory and of its directory.
use qos_extended_mros2_esp.Base.{
  String, Bool, true, false, not, ◌&&◌, ◌||◌, some, List, [], ◌∷◌, ◌≡◌, refl, sym, ◌∙◌, ap, map,
  filter, contains, ◌==◌, string_eq, option_eq, nat_eq, All, All-mono, All-both, All-filter, arith,
}
use qos_extended_mros2_esp.Base.Int.{int_eq}
use qos_extended_mros2_esp.Base.Order.{sort_with, insert_with, sort_with-All}
use qos_extended_mros2_esp.Seal.Release.{File, Digests, is_excluded, file_le, sealed_files}
use qos_extended_mros2_esp.Seal.Verify.{is_unsafe, has_duplicates, file_at, actual_paths}

abbrev pub path_of : File → String
path_of f = f.path

-- What the file system gives: safe relative paths, each once.
pub record IsTree (files : List File) : Type 0 where
  pub safe : All (λ f. is_unsafe f.path ≡ false) files
  pub distinct : has_duplicates (map path_of files) ≡ false

module _ (D : Digests) where
  -- Sorting and leaving out files makes no path occur twice.
  contains-insert_with :
      (p : String) (f : File) (files : List File)
      → contains (map path_of (insert_with file_le f files)) p
        ≡ (p == f.path || contains (map path_of files) p)
  unfolding insert_with
  contains-insert_with p f [] = refl
  contains-insert_with p f (g ∷ files) = ground (arith, contains-insert_with p f files)

  contains-sort_with :
      (p : String) (files : List File)
      → contains (map path_of (sort_with file_le files)) p ≡ contains (map path_of files) p
  unfolding sort_with
  contains-sort_with p [] = refl
  contains-sort_with p (f ∷ files) =
      contains-insert_with p f (sort_with file_le files)
      ∙ ap (λ b. p == f.path || b) (contains-sort_with p files)

  has_duplicates-insert_with :
      (f : File) (files : List File)
      → has_duplicates (map path_of (insert_with file_le f files))
        ≡ (contains (map path_of files) f.path || has_duplicates (map path_of files))
  unfolding has_duplicates insert_with
  has_duplicates-insert_with f [] = refl
  has_duplicates-insert_with f (g ∷ files) =
      ground (arith, has_duplicates-insert_with f files, contains-insert_with g.path f files)

  pub has_duplicates-sort_with :
      (files : List File)
      → has_duplicates (map path_of (sort_with file_le files)) ≡ has_duplicates (map path_of files)
  unfolding has_duplicates sort_with
  has_duplicates-sort_with [] = refl
  has_duplicates-sort_with (f ∷ files) =
      has_duplicates-insert_with f (sort_with file_le files)
      ∙ ground (arith, contains-sort_with f.path files, has_duplicates-sort_with files)

  -- The test that leaves the seal files out.
  abbrev pub is_sealed : File → Bool
  is_sealed f = not (is_excluded f.path)

  contains-filter :
      (p : String) (files : List File)
      → contains (map path_of (filter is_sealed files)) p
        ≡ (not (is_excluded p) && contains (map path_of files) p)
  contains-filter p [] = ground arith
  contains-filter p (f ∷ files) = ground (arith, contains-filter p files)

  pub has_duplicates-filter :
      (files : List File)
      → has_duplicates (map path_of files) ≡ false
      → has_duplicates (map path_of (filter is_sealed files)) ≡ false
  unfolding has_duplicates
  has_duplicates-filter [] h = refl
  has_duplicates-filter (f ∷ files) h =
      ground (arith, has_duplicates-filter files, contains-filter f.path files)

  -- Each file is found at its path.
  not_at :
      (p : String) (files : List File)
      → contains (map path_of files) p ≡ false
      → All (λ (g : File). (g.path == p) ≡ false) files
  not_at p [] h = tt
  not_at p (g ∷ files) h = (ground arith, not_at p files (ground arith))

  file_at_self :
      (files : List File)
      → has_duplicates (map path_of files) ≡ false
      → All (λ (f : File). file_at f.path files ≡ some f) files
  unfolding file_at has_duplicates
  file_at_self [] h = tt
  file_at_self (f ∷ files) h = (
    ground arith,
    All-mono files (λ g h. ground (arith, h.0, h.1))
        (All-both _ _ files (not_at f.path files (ground arith))
          (file_at_self files (ground arith))),
  )

  pub sealed_found :
      (files : List File)
      → has_duplicates (map path_of files) ≡ false
      → All (λ (f : File). file_at f.path files ≡ some f) (sealed_files D files)
  sealed_found files h =
      All-filter _ is_sealed _ (sort_with-All file_le _ files (file_at_self files h))

  pub contains_self : (xs : List String) → All (λ x. contains xs x ≡ true) xs
  contains_self [] = tt
  contains_self (x ∷ xs) = (ground arith, All-mono xs (λ y there. ground arith) (contains_self xs))

  actual_paths_lem :
      (p : String) (files : List File)
      → contains (actual_paths D files) p ≡ (not (is_excluded p) && contains (map path_of files) p)
  actual_paths_lem p [] = ground arith
  actual_paths_lem p (f ∷ files) = ground (arith, actual_paths_lem p files)

  -- The inventory and the directory hold the same paths.
  pub same_paths :
      (p : String) (files : List File)
      → contains (map path_of (sealed_files D files)) p ≡ contains (actual_paths D files) p
  same_paths p files =
      contains-filter p (sort_with file_le files)
      ∙ ap (λ b. not (is_excluded p) && b) (contains-sort_with p files)
      ∙ sym (actual_paths_lem p files)
