-- ===== src/FileSystem/Tree.antt =====
-- mini_os_simulator/filesystem/file_system.py: the tree of directories and files, and the
-- methods that change it.
pub mod Runs
use smart_device_io_t_operat.Prelude.{
  path_key, same_codes, ℕ, ◌≡◌, refl, sym, ◌∙◌, ap, inl, inr, Bool, true, false, not, ◌&&◌, ◌||◌,
  Option, none, some, List, [], ◌∷◌, ◌++◌, is_some, map_option, if◌then◌else◌, arith, Option-cases,
  Bool-cases, Dict, ltb, ◌==◌,
}
use smart_device_io_t_operat.Prelude.Table
use smart_device_io_t_operat.Prelude.Table.{get-put, get-remove, get-modify, same_codes_iff}
use smart_device_io_t_operat.FileSystem.Paths.{FilePath, root, normalize_path, parent_dir, basename}
use smart_device_io_t_operat.FileSystem
use smart_device_io_t_operat.FileSystem.{
  Inode, FileSystemPorts, has_dir, has_file, update, new_file_system, set_simulation_tick, mkdir,
  create, write, append, delete, get_metadata, try_acquire_exclusive_lock, release_exclusive_lock,
  acquire_inode, contend, hand_over, owned_by, note_open, note_close, store, refresh_meta,
  set_owner, add_waiter, grant_next,
}

-- `/` is a directory, every other directory and every file stands in a directory, and no path is
-- both a file and a directory.
pub record IsTree (fs : FileSystem.FileSystem) : Type 0 where
  pub root_there : has_dir root fs.dirs ≡ true
  pub dir_parent :
      (d : FilePath)
      → has_dir d fs.dirs ≡ true
      → (same_codes d root || has_dir (parent_dir d) fs.dirs) ≡ true
  pub file_parent : (p : FilePath) → has_file p fs ≡ true → has_dir (parent_dir p) fs.dirs ≡ true
  pub apart : (p : FilePath) → has_file p fs ≡ true → has_dir p fs.dirs ≡ false

has_dir-append :
    (q p : FilePath) (ds : List FilePath)
    → has_dir q (ds ++ p ∷ []) ≡ (has_dir q ds || same_codes p q)
has_dir-append q p [] = ground arith
has_dir-append q p (d ∷ ds) = ground (arith, has_dir-append q p ds)

-- A new directory below one that is there.
module _ (p : FilePath) (fs : FileSystem.FileSystem) (v : IsTree fs) where
  new_dir-IsTree :
      (same_codes (parent_dir p) root || has_dir (parent_dir p) fs.dirs) ≡ true
      → has_file p fs ≡ false
      → IsTree (record fs { dirs = fs.dirs ++ p ∷ [] })
  new_dir-IsTree parent no_file = record {
    root_there = ground (arith, has_dir-append root p fs.dirs, v.root_there);
    dir_parent = λ d h. elim (Bool-cases (has_dir d fs.dirs)) [
      | inl old ↦ ground (arith, v.dir_parent d old, has_dir-append (parent_dir d) p fs.dirs)
      | inr fresh ↦
          let here : p ≡ d = (same_codes_iff p d).0 (ground (arith, has_dir-append d p fs.dirs)) in
          rw (← here) (under (parent_here parent))
    ];
    file_parent = λ q h. ground (arith, v.file_parent q h, has_dir-append (parent_dir q) p fs.dirs);
    apart = λ q h. elim (Bool-cases (same_codes p q)) [
      | inl e ↦
          let here : p ≡ q = (same_codes_iff p q).0 e in
          let there : has_file p fs ≡ true = rw here h in cc (there, no_file)
      | inr e ↦ ground (arith, e, has_dir-append q p fs.dirs, v.apart q h)
    ];
  }
    where
      parent_here :
          (same_codes (parent_dir p) root || has_dir (parent_dir p) fs.dirs) ≡ true
          → has_dir (parent_dir p) fs.dirs ≡ true
      parent_here h = elim (Bool-cases (same_codes (parent_dir p) root)) [
        | inl e ↦ rw ((same_codes_iff (parent_dir p) root).0 e) v.root_there
        | inr e ↦ ground (arith, e)
      ]

      under :
          has_dir (parent_dir p) fs.dirs ≡ true
          → (same_codes p root || has_dir (parent_dir p) (fs.dirs ++ p ∷ [])) ≡ true
      under h = ground (arith, has_dir-append (parent_dir p) p fs.dirs)

-- A new file in a directory that is there.
new_file-IsTree :
    (p : FilePath) (i : Inode) (fs : FileSystem.FileSystem)
    → IsTree fs
    → has_dir (parent_dir p) fs.dirs ≡ true
    → has_dir p fs.dirs ≡ false
    → IsTree (record fs { files = Table.put p i fs.files })
new_file-IsTree p i fs v parent no_dir = record {
  root_there = v.root_there;
  dir_parent = v.dir_parent;
  file_parent = λ q h. elim (Bool-cases (same_codes p q)) [
    | inl e ↦ rw (← (same_codes_iff p q).0 e) parent
    | inr e ↦ v.file_parent q (ground (arith, e, get-put p q i fs.files))
  ];
  apart = λ q h. elim (Bool-cases (same_codes p q)) [
    | inl e ↦ rw (← (same_codes_iff p q).0 e) no_dir
    | inr e ↦ v.apart q (ground (arith, e, get-put p q i fs.files))
  ];
}

pub mkdir-IsTree :
    (path : FilePath) (fs : FileSystem.FileSystem) → IsTree fs → IsTree (mkdir path fs).1
unfolding mkdir
mkdir-IsTree path fs v =
    let p = normalize_path path in
    let orphan = not (same_codes (parent_dir p) root) && not (has_dir (parent_dir p) fs.dirs) in
    elim (Bool-cases (same_codes p root)) [
      | inl e ↦ rw e v
      | inr e ↦ elim (Bool-cases orphan) [
        | inl o ↦ rw (e, o) v
        | inr o ↦ elim (Bool-cases (has_dir p fs.dirs)) [
          | inl d ↦ rw (e, o) (rw d v)
          | inr d ↦ elim (Bool-cases (has_file p fs)) [
            | inl f ↦ rw (e, o) (rw (d, f) v)
            | inr f ↦ rw (e, o) (rw (d, f) (new_dir-IsTree p fs v (ground (arith, o)) f))
          ]
        ]
      ]
    ]

pub create-IsTree :
    (path : FilePath) (pid : Option ℕ) (fs : FileSystem.FileSystem)
    → IsTree fs
    → IsTree (create path pid fs).1
unfolding create
create-IsTree path pid fs v =
    let p = normalize_path path in
    elim (Bool-cases (has_file p fs)) [
      | inl f ↦ rw f v
      | inr f ↦ elim (Bool-cases (has_dir p fs.dirs)) [
        | inl d ↦ rw (f, d) v
        | inr d ↦ elim (Bool-cases (has_dir (parent_dir p) fs.dirs)) [
          | inr o ↦ rw (f, d) (rw o v)
          | inl o ↦ rw (f, d) (rw o (new_file-IsTree p _ fs v o d))
        ]
      ]
    ]

-- Calls that keep the directories and make no file.
pub kept-IsTree :
    (fs fs' : FileSystem.FileSystem)
    → fs'.dirs ≡ fs.dirs
    → ((q : FilePath) → has_file q fs' ≡ true → has_file q fs ≡ true)
    → IsTree fs
    → IsTree fs'
kept-IsTree fs fs' e k v = record {
  root_there = rw e v.root_there;
  dir_parent = λ d h. rw e (v.dir_parent d (rw e at h));
  file_parent = λ q h. rw e (v.file_parent q (k q h));
  apart = λ q h. rw e (v.apart q (k q h));
}

pub has_file-update :
    (p q : FilePath) (f : Inode → Inode) (fs : FileSystem.FileSystem)
    → has_file q (update p f fs) ≡ has_file q fs
has_file-update p q f fs = ground (arith, get-modify p q f fs.files)

pub update-IsTree :
    (p : FilePath) (f : Inode → Inode) (fs : FileSystem.FileSystem)
    → IsTree fs
    → IsTree (update p f fs)
update-IsTree p f fs v =
    kept-IsTree fs (update p f fs) refl (λ q h. sym (has_file-update p q f fs) ∙ h) v

pub delete-IsTree :
    (path : FilePath) (fs : FileSystem.FileSystem) → IsTree fs → IsTree (delete path fs).1
unfolding delete
delete-IsTree path fs v =
    let p = normalize_path path in
    elim (Option-cases (Table.get p fs.files)) [
      | inl e ↦ rw (e, delete) v
      | inr (i, e) ↦ elim (Bool-cases (ltb 0 i.meta.open_count)) [
        | inl o ↦ rw (e, delete) (rw o v)
        | inr o ↦ elim (Bool-cases (is_some i.lock_owner)) [
          | inl l ↦ rw (e, delete) (rw (o, l) v)
          | inr l ↦
              rw (e, delete)
                (rw (o, l)
                  (kept-IsTree fs (record fs { files = Table.remove p fs.files }) refl
                    (λ q h. ground (arith, get-remove p q fs.files)) v))
        ]
      ]
    ]

pub write-IsTree :
    (path : FilePath) (content : List ℕ) (pid : Option ℕ) (fs : FileSystem.FileSystem)
    → IsTree fs
    → IsTree (write path content pid fs).1
unfolding write
write-IsTree path content pid fs v = elim (Bool-cases (has_file (normalize_path path) fs)) [
  | inl e ↦ rw e (update-IsTree (normalize_path path) (store fs.tick pid content) fs v)
  | inr e ↦ rw e v
]

pub append-IsTree :
    (path : FilePath) (fragment : List ℕ) (pid : Option ℕ) (fs : FileSystem.FileSystem)
    → IsTree fs
    → IsTree (append path fragment pid fs).1
unfolding append
append-IsTree path fragment pid fs v = elim (Bool-cases (has_file (normalize_path path) fs)) [
  | inl e ↦
      rw e (
        update-IsTree (normalize_path path) (λ i. store fs.tick pid (i.content ++ fragment) i) fs v)
  | inr e ↦ rw e v
]

pub get_metadata-IsTree :
    (path : FilePath) (fs : FileSystem.FileSystem) → IsTree fs → IsTree (get_metadata path fs).1
unfolding get_metadata
get_metadata-IsTree path fs v = elim (Option-cases (Table.get (normalize_path path) fs.files)) [
  | inl e ↦ rw (e, get_metadata) v
  | inr (i, e) ↦ rw (e, get_metadata) (update-IsTree (normalize_path path) refresh_meta fs v)
]

pub new_file_system-IsTree : (tick : ℕ) → IsTree (new_file_system tick)
new_file_system-IsTree tick = record {
  root_there = refl;
  dir_parent = λ d h.
      let here : root ≡ d = (same_codes_iff root d).0 (ground (arith, h)) in
      let back : same_codes d root ≡ true = (same_codes_iff d root).1 (sym here) in
      ground (arith, back);
  file_parent = λ q h. unfold Table.get in cc;
  apart = λ q h. unfold Table.get in cc;
}
