-- ===== src/FileSystem/Listing.antt =====
-- mini_os_simulator/filesystem/file_system.py, `list_dir`: what a listing holds, and in which order.
use smart_device_io_t_operat.Prelude.{
  path_key, same_codes, ℕ, ◌≡◌, refl, sym, ◌∙◌, ◌↔◌, ◌⊎◌, inl, inr, Bool, true, false, not, ◌&&◌,
  ◌||◌, none, some, List, [], ◌∷◌, ◌++◌, map, keep, is_some, arith, Bool-cases, Dict,
}
use smart_device_io_t_operat.Prelude.Table
use smart_device_io_t_operat.Prelude.Table.{same_codes_iff}
use smart_device_io_t_operat.FileSystem.Paths.{FilePath, root, normalize_path, parent_dir, basename}
use smart_device_io_t_operat.FileSystem
use smart_device_io_t_operat.FileSystem.{
  Inode, has_dir, has_file, list_dir, text_leb, insert_text, sort_texts,
}
use smart_device_io_t_operat.FileSystem.Names.{
  IsSorted, sort_texts-IsSorted, has-sort_texts, has-append, has_name-Named, Named-has_name,
}

-- A directory other than the path itself and `/`, or a file, that stands in the directory `d` under
-- the name `q`.
pub record HasChild (d : FilePath) (q : List ℕ) (fs : FileSystem.FileSystem) : Type 0 where
  pub child : FilePath
  pub is_there :
      (has_dir child fs.dirs && not (same_codes child d || same_codes child root)
        || has_file child fs)
      ≡ true
  pub parent : parent_dir child ≡ d
  pub name : basename child ≡ q

abbrev is_dir_below : FilePath → FilePath → Bool
is_dir_below d p = not (same_codes p d || same_codes p root) && same_codes (parent_dir p) d

abbrev is_file_below : FilePath → FilePath → Bool
is_file_below d p = same_codes (parent_dir p) d

has-file_paths :
    (p : FilePath) (files : Dict FilePath Inode)
    → has_dir p (map (λ e. e.0) files) ≡ is_some (Table.get p files)
unfolding Table.get
has-file_paths p [] = refl
has-file_paths p ((k, i) ∷ rest) = ground (arith, has-file_paths p rest)

-- The names before they are sorted.
abbrev names_below : FilePath → FileSystem.FileSystem → List (List ℕ)
names_below d fs =
    map basename (keep (is_dir_below d) fs.dirs)
    ++ map basename (keep (is_file_below d) (map (λ e. e.0) fs.files))

listed-HasChild :
    (d : FilePath) (q : List ℕ) (fs : FileSystem.FileSystem)
    → has_dir q (names_below d fs) ≡ true
    → HasChild d q fs
listed-HasChild d q fs h =
    let dirs = map basename (keep (is_dir_below d) fs.dirs) in
    let paths = map (λ e. e.0) fs.files in
    let files = map basename (keep (is_file_below d) paths) in
    elim (Bool-cases (has_dir q dirs)) [
      | inl e ↦
          let (p, m, t, n) = has_name-Named (is_dir_below d) q fs.dirs e in
          record {
            child = p;
            is_there = ground (arith, m, t);
            parent = (same_codes_iff (parent_dir p) d).0 (ground (arith, t));
            name = n;
          }
      | inr e ↦
          let (p, m, t, n) =
            has_name-Named (is_file_below d) q paths
              (ground (arith, has-append q dirs files, h, e)) in
          record {
            child = p;
            is_there = ground (arith, m, has-file_paths p fs.files);
            parent = (same_codes_iff (parent_dir p) d).0 t;
            name = n;
          }
    ]

HasChild-listed :
    (d : FilePath) (q : List ℕ) (fs : FileSystem.FileSystem)
    → HasChild d q fs
    → has_dir q (names_below d fs) ≡ true
HasChild-listed d q fs c =
    let dirs = map basename (keep (is_dir_below d) fs.dirs) in
    let paths = map (λ e. e.0) fs.files in
    let files = map basename (keep (is_file_below d) paths) in
    let p = c.child in
    let below : same_codes (parent_dir p) d ≡ true = (same_codes_iff (parent_dir p) d).1 c.parent in
    elim (Bool-cases (has_file p fs)) [
      | inl f ↦
          let named =
            Named-has_name (is_file_below d) q paths
              (p, ground (arith, f, has-file_paths p fs.files), below, c.name) in
          ground (arith, has-append q dirs files, named)
      | inr f ↦
          let named =
            Named-has_name (is_dir_below d) q fs.dirs
              (p, ground (arith, f, c.is_there), ground (arith, f, c.is_there, below), c.name) in
          ground (arith, has-append q dirs files, named)
    ]

-- `list_dir` answers none when the normalized path is not a directory, and else names in the
-- order of their code points, which are the names of the files in the directory and of the
-- directories in it other than itself and `/`.
pub list_dir_lem :
    (path : FilePath) (fs : FileSystem.FileSystem)
    → let d = normalize_path path in
      (list_dir path fs ≡ none) × (has_dir d fs.dirs ≡ false)
      ⊎ (names : List (List ℕ)) × (list_dir path fs ≡ some names)
        × (has_dir d fs.dirs ≡ true)
        × IsSorted names
        × ((q : List ℕ) → (has_dir q names ≡ true) ↔ HasChild d q fs)
unfolding list_dir
list_dir_lem path fs =
    let d = normalize_path path in
    let names = names_below d fs in
    elim (Bool-cases (has_dir d fs.dirs)) [
      | inr e ↦ inl (rw e refl, e)
      | inl e ↦ inr (
        sort_texts names,
        rw e refl,
        e,
        sort_texts-IsSorted names,
        λ q. (
          λ h. listed-HasChild d q fs (sym (has-sort_texts q names) ∙ h),
          λ c. has-sort_texts q names ∙ HasChild-listed d q fs c,
        ),
      )
    ]
