-- ===== src/FileSystem/Contents/Metadata.antt =====
-- mini_os_simulator/filesystem/file_system.py: the metadata of a file beside its text, its lock
-- and its path.
use smart_device_io_t_operat.Prelude.{
  path_key, ℕ, ◌≡◌, refl, sym, ◌∙◌, ap, inl, inr, Option, none, some, List, [], ◌∷◌, ◌++◌, ◌==◌,
  length, is_some, arith, Option-cases, Bool-cases, same_codes, ltb,
}
use smart_device_io_t_operat.Prelude.Table
use smart_device_io_t_operat.Prelude.Table.{get-modify, get-put, get-remove, same_codes_iff}
use smart_device_io_t_operat.FileSystem.Paths.{FilePath, normalize_path, parent_dir}
use smart_device_io_t_operat.FileSystem
use smart_device_io_t_operat.FileSystem.{
  Inode, FileSystemPorts, has_file, has_dir, update, store, touch_meta_size, write, append, create,
  delete, mkdir, get_metadata, refresh_meta, set_owner, add_waiter, grant_next, owned_by,
  try_acquire_exclusive_lock, acquire_inode, contend, release_exclusive_lock, hand_over, note_open,
  note_close, set_simulation_tick, new_file_system,
}
use smart_device_io_t_operat.FileSystem.Tree.Runs.{
  Call, ticks, makes_dir, deletes, looks_up, opens, closes, creates, writes, appends, locks,
  unlocks, step, run,
}

-- The size is that of the text, `locked_by` is the owner of the lock, and the path is the key.
pub record IsDescribed (p : FilePath) (i : Inode) : Type 0 where
  pub size : i.meta.size ≡ length i.content
  pub locked_by : i.meta.locked_by ≡ i.lock_owner
  pub path : i.meta.path ≡ p

abbrev pub AllDescribed : FileSystem.FileSystem → Type 0
AllDescribed fs = (p : FilePath) (i : Inode) → Table.get p fs.files ≡ some i → IsDescribed p i

some-injective : (a b : Inode) → some a ≡ some b → a ≡ b
some-injective a b h = ground arith

update-AllDescribed :
    (p : FilePath) (f : Inode → Inode) (fs : FileSystem.FileSystem)
    → ((q : FilePath) (i : Inode) → IsDescribed q i → IsDescribed q (f i))
    → AllDescribed fs
    → AllDescribed (update p f fs)
update-AllDescribed p f fs keeps v q i h = elim (Bool-cases (same_codes p q)) [
  | inr k ↦ v q i (ground (arith, k, h, get-modify p q f fs.files))
  | inl k ↦ elim (Option-cases (Table.get q fs.files)) [
    | inl g ↦ ground (arith, k, g, h, get-modify p q f fs.files)
    | inr (j, g) ↦
        let same : f j ≡ i =
          some-injective (f j) i (ground (arith, k, g, h, get-modify p q f fs.files)) in
        rw (← same) (keeps q j (v q j g))
  ]
]

create-AllDescribed :
    (path : FilePath) (pid : Option ℕ) (fs : FileSystem.FileSystem)
    → AllDescribed fs
    → AllDescribed (create path pid fs).1
unfolding create
create-AllDescribed path pid fs v =
    let p = normalize_path path in
    elim (Bool-cases (has_file p fs)) [
      | inl f ↦ rw f v
      | inr f ↦ elim (Bool-cases (has_dir p fs.dirs)) [
        | inl d ↦ rw (f, d) v
        | inr d ↦ elim (Bool-cases (has_dir (parent_dir p) fs.dirs)) [
          | inr o ↦ rw (f, d) (rw o v)
          | inl o ↦
              rw (f, d) (rw o (added p _ (record { size = refl; locked_by = refl; path = refl })))
        ]
      ]
    ]
  where
    added :
        (p : FilePath) (n : Inode)
        → IsDescribed p n
        → AllDescribed (record fs { files = Table.put p n fs.files })
    added p n w q i h = elim (Bool-cases (same_codes p q)) [
      | inr k ↦ v q i (ground (arith, k, h, get-put p q n fs.files))
      | inl k ↦
          let same : n ≡ i = some-injective n i (ground (arith, k, h, get-put p q n fs.files)) in
          rw (← same) (rw (← (same_codes_iff p q).0 k) w)
    ]

store-IsDescribed :
    (tick : ℕ) (pid : Option ℕ) (text : List ℕ) (q : FilePath) (i : Inode)
    → IsDescribed q i
    → IsDescribed q (store tick pid text i)
unfolding store touch_meta_size
store-IsDescribed tick pid text q i w = record {
  size = refl;
  locked_by = w.locked_by;
  path = w.path;
}

set_owner-IsDescribed :
    (owner : Option ℕ) (q : FilePath) (i : Inode)
    → IsDescribed q i
    → IsDescribed q (set_owner owner i)
set_owner-IsDescribed owner q i w = record { size = w.size; locked_by = refl; path = w.path }

grant_next-IsDescribed :
    (pid : ℕ) (rest : List ℕ) (q : FilePath) (i : Inode)
    → IsDescribed q i
    → IsDescribed q (grant_next pid rest i)
grant_next-IsDescribed pid rest q i w = record { size = w.size; locked_by = refl; path = w.path }

-- A change of other parts of the inode.
untouched-IsDescribed :
    (q : FilePath) (i j : Inode)
    → j.content ≡ i.content
    → j.meta.size ≡ i.meta.size
    → j.meta.locked_by ≡ i.meta.locked_by
    → j.lock_owner ≡ i.lock_owner
    → j.meta.path ≡ i.meta.path
    → IsDescribed q i
    → IsDescribed q j
untouched-IsDescribed q i j a b c d e w = record {
  size = b ∙ w.size ∙ ap length (sym a);
  locked_by = c ∙ w.locked_by ∙ sym d;
  path = e ∙ w.path;
}

delete-AllDescribed :
    (path : FilePath) (fs : FileSystem.FileSystem)
    → AllDescribed fs
    → AllDescribed (delete path fs).1
unfolding delete
delete-AllDescribed path fs v =
    let p = normalize_path path in
    elim (Option-cases (Table.get p fs.files)) [
      | inl e ↦ rw (e, delete) v
      | inr (i, e) ↦ elim (Bool-cases (ltb 0 i.meta.open_count)) [
        | inl o ↦ rw (e, delete) (rw o v)
        | inr o ↦ elim (Bool-cases (is_some i.lock_owner)) [
          | inl l ↦ rw (e, delete) (rw (o, l) v)
          | inr l ↦
              rw (e, delete)
                (rw (o, l) (λ q j h. v q j (ground (arith, h, get-remove p q fs.files))))
        ]
      ]
    ]

module _ (p : FilePath) (fs : FileSystem.FileSystem) (v : AllDescribed fs) where
  owned-AllDescribed : (owner : Option ℕ) → AllDescribed (update p (set_owner owner) fs)
  owned-AllDescribed owner =
      update-AllDescribed p (set_owner owner) fs (set_owner-IsDescribed owner) v

  waiting-AllDescribed : (pid : ℕ) → AllDescribed (update p (add_waiter pid) fs)
  waiting-AllDescribed pid =
      update-AllDescribed p (add_waiter pid) fs
        (λ q i. untouched-IsDescribed q i (add_waiter pid i) refl refl refl refl refl) v

  granted-AllDescribed :
      (pid : ℕ) (rest : List ℕ) → AllDescribed (update p (grant_next pid rest) fs)
  granted-AllDescribed pid rest =
      update-AllDescribed p (grant_next pid rest) fs (grant_next-IsDescribed pid rest) v

  stored-AllDescribed :
      (pid : Option ℕ) (text : Inode → List ℕ)
      → AllDescribed (update p (λ i. store fs.tick pid (text i) i) fs)
  stored-AllDescribed pid text =
      update-AllDescribed p (λ i. store fs.tick pid (text i) i) fs
        (λ q i. store-IsDescribed fs.tick pid (text i) q i) v

files-mkdir : (path : FilePath) (fs : FileSystem.FileSystem) → (mkdir path fs).1.files ≡ fs.files
unfolding mkdir
files-mkdir path fs = ground arith

module _ {S : Type 0} (ports : Option (FileSystemPorts S)) where
  acquire_inode-AllDescribed :
      (pid : ℕ) (p : FilePath) (owner : Option ℕ) (ports : Option (FileSystemPorts S))
      (fs : FileSystem.FileSystem) (s : S)
      → AllDescribed fs
      → AllDescribed (acquire_inode pid p owner ports fs s).1
  unfolding acquire_inode contend
  acquire_inode-AllDescribed pid p none ports fs s v = owned-AllDescribed p fs v (some pid)
  acquire_inode-AllDescribed pid p (some holder) none fs s v = elim (Bool-cases (holder == pid)) [
    | inl e ↦ rw e (owned-AllDescribed p fs v (some pid))
    | inr e ↦ rw e v
  ]
  acquire_inode-AllDescribed pid p (some holder) (some f) fs s v =
      elim (Bool-cases (holder == pid)) [
        | inl e ↦ rw e (owned-AllDescribed p fs v (some pid))
        | inr e ↦ rw e (waiting-AllDescribed p fs v pid)
      ]

  hand_over-AllDescribed :
      (p : FilePath) (waiters : List ℕ) (fs : FileSystem.FileSystem) (s : S)
      → AllDescribed fs
      → AllDescribed (hand_over p waiters ports fs s).0
  unfolding hand_over
  hand_over-AllDescribed p [] fs s v = owned-AllDescribed p fs v none
  hand_over-AllDescribed p (w ∷ rest) fs s v = granted-AllDescribed p fs v w rest

  locking-AllDescribed :
      (pid : ℕ) (path : FilePath) (fs : FileSystem.FileSystem) (s : S)
      → AllDescribed fs
      → AllDescribed (try_acquire_exclusive_lock pid path ports fs s).1
        × AllDescribed (release_exclusive_lock pid path ports fs s).0
  unfolding try_acquire_exclusive_lock release_exclusive_lock
  locking-AllDescribed pid path fs s v =
      let p = normalize_path path in
      elim (Option-cases (Table.get p fs.files)) [
        | inl e ↦ rw (e, try_acquire_exclusive_lock, release_exclusive_lock) (v, v)
        | inr (i, e) ↦
            rw (e, try_acquire_exclusive_lock, release_exclusive_lock)
              (
                acquire_inode-AllDescribed pid p i.lock_owner ports fs s v,
                elim (Bool-cases (owned_by pid i.lock_owner)) [
                  | inl o ↦ rw o (hand_over-AllDescribed p i.lock_waiters fs s v)
                  | inr o ↦ rw o v
                ],
              )
      ]

  step-AllDescribed :
      (c : Call) (fs : FileSystem.FileSystem) (s : S)
      → AllDescribed fs
      → AllDescribed (step ports c fs s).0
  unfolding step note_open note_close write append get_metadata
  step-AllDescribed (ticks t) fs s v = v
  step-AllDescribed (makes_dir p) fs s v =
      λ q i h. v q i (ap (Table.get q) (sym (files-mkdir p fs)) ∙ h)
  step-AllDescribed (deletes p) fs s v = delete-AllDescribed p fs v
  step-AllDescribed (looks_up p) fs s v =
      elim (Option-cases (Table.get (normalize_path p) fs.files)) [
        | inl e ↦ rw (e, get_metadata) v
        | inr (i, e) ↦
            rw (e, get_metadata)
              (update-AllDescribed (normalize_path p) refresh_meta fs
                (λ q j w. record { size = refl; locked_by = refl; path = w.path }) v)
      ]
  step-AllDescribed (opens p) fs s v =
      update-AllDescribed (normalize_path p) _ fs
        (λ q i. untouched-IsDescribed q i _ refl refl refl refl refl) v
  step-AllDescribed (closes p) fs s v =
      update-AllDescribed (normalize_path p) _ fs
        (λ q i. untouched-IsDescribed q i _ refl refl refl refl refl) v
  step-AllDescribed (creates p pid) fs s v = create-AllDescribed p pid fs v
  step-AllDescribed (writes p text pid) fs s v =
      elim (Bool-cases (has_file (normalize_path p) fs)) [
        | inl e ↦ rw e (stored-AllDescribed (normalize_path p) fs v pid (λ i. text))
        | inr e ↦ rw e v
      ]
  step-AllDescribed (appends p text pid) fs s v =
      elim (Bool-cases (has_file (normalize_path p) fs)) [
        | inl e ↦ rw e (stored-AllDescribed (normalize_path p) fs v pid (λ i. i.content ++ text))
        | inr e ↦ rw e v
      ]
  step-AllDescribed (locks pid p) fs s v = (locking-AllDescribed pid p fs s v).0
  step-AllDescribed (unlocks pid p) fs s v = (locking-AllDescribed pid p fs s v).1

  -- Over any calls of the methods that change the file system, with any ports, the metadata of
  -- every file hold the length of its text, the owner of its lock and the path that it stands
  -- under, if they did at the start.
  pub run-AllDescribed :
      (cs : List Call) (fs : FileSystem.FileSystem) (s : S)
      → AllDescribed fs
      → AllDescribed (run ports cs fs s).0
  unfolding run
  run-AllDescribed [] fs s v = v
  run-AllDescribed (c ∷ cs) fs s v =
      run-AllDescribed cs (step ports c fs s).0 (step ports c fs s).1 (step-AllDescribed c fs s v)
