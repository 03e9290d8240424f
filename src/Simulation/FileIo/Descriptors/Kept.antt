-- ===== src/Simulation/FileIo/Descriptors/Kept.antt =====
-- mini_os_simulator/filesystem/file_system.py: the methods that leave the counts of open descriptors
-- alone.
use smart_device_io_t_operat.Prelude.{
  nat_key, path_key, ℕ, ◌≡◌, refl, inl, inr, false, Option, none, some, List, [], ◌∷◌, ◌++◌, ◌==◌,
  ltb, is_some, arith, Option-cases, Bool-cases, same_codes,
}
use smart_device_io_t_operat.Prelude.Table
use smart_device_io_t_operat.Prelude.Table.{get-modify, get-put, get-remove, same_codes_iff}
use smart_device_io_t_operat.FileSystem
use smart_device_io_t_operat.FileSystem.{
  Inode, FileSystemPorts, update, file_exists, has_file, has_dir, mkdir, get_metadata, refresh_meta,
  create, delete, write, append, store, touch_meta_size, try_acquire_exclusive_lock, acquire_inode,
  contend, release_exclusive_lock, hand_over, owned_by, set_owner, add_waiter, grant_next,
}
use smart_device_io_t_operat.FileSystem.Paths.{FilePath, normalize_path, parent_dir}
use smart_device_io_t_operat.Simulation.FileIo.Descriptors.{opened}

-- A method that leaves the count of every file alone.
abbrev pub KeepsCounts : FileSystem.FileSystem → FileSystem.FileSystem → Type 0
KeepsCounts fs fs' = (q : FilePath) → opened q fs' ≡ opened q fs

update-KeepsCounts :
    (p : FilePath) (f : Inode → Inode) (fs : FileSystem.FileSystem)
    → ((i : Inode) → (f i).meta.open_count ≡ i.meta.open_count)
    → KeepsCounts fs (update p f fs)
update-KeepsCounts p f fs same q = elim (Option-cases (Table.get q fs.files)) [
  | inl e ↦ ground (arith, e, get-modify p q f fs.files)
  | inr (i, e) ↦ ground (arith, e, same i, get-modify p q f fs.files)
]

store-KeepsCounts :
    (p : FilePath) (pid : Option ℕ) (text : Inode → List ℕ) (fs : FileSystem.FileSystem)
    → KeepsCounts fs (update p (λ i. store fs.tick pid (text i) i) fs)
unfolding store touch_meta_size
store-KeepsCounts p pid text fs =
    update-KeepsCounts p (λ i. store fs.tick pid (text i) i) fs (λ i. refl)

pub write-KeepsCounts :
    (path : FilePath) (text : List ℕ) (pid : Option ℕ) (fs : FileSystem.FileSystem)
    → KeepsCounts fs (write path text pid fs).1 × KeepsCounts fs (append path text pid fs).1
unfolding write append
write-KeepsCounts path text pid fs = elim (Bool-cases (has_file (normalize_path path) fs)) [
  | inl e ↦ rw e (
    store-KeepsCounts (normalize_path path) pid (λ i. text) fs,
    store-KeepsCounts (normalize_path path) pid (λ i. i.content ++ text) fs,
  )
  | inr e ↦ rw e (λ q. refl, λ q. refl)
]

pub create-KeepsCounts :
    (path : FilePath) (pid : Option ℕ) (fs : FileSystem.FileSystem)
    → KeepsCounts fs (create path pid fs).1
unfolding create
create-KeepsCounts path pid fs q =
    let p = normalize_path path in
    elim (Bool-cases (has_file p fs)) [
      | inl f ↦ rw f refl
      | inr f ↦ elim (Bool-cases (has_dir p fs.dirs)) [
        | inl d ↦ rw (f, d) refl
        | inr d ↦ elim (Bool-cases (has_dir (parent_dir p) fs.dirs)) [
          | inr o ↦ rw (f, d) (rw o refl)
          | inl o ↦ rw (f, d) (rw o (added p _ refl f))
        ]
      ]
    ]
  where
    added :
        (p : FilePath) (n : Inode)
        → n.meta.open_count ≡ 0
        → has_file p fs ≡ false
        → opened q (record fs { files = Table.put p n fs.files }) ≡ opened q fs
    added p n zero_count absent = elim (Bool-cases (same_codes p q)) [
      | inr k ↦ ground (arith, k, get-put p q n fs.files)
      | inl k ↦
          let gone : has_file q fs ≡ false = rw (← (same_codes_iff p q).0 k) absent in
          ground (arith, k, gone, zero_count, get-put p q n fs.files)
    ]

pub delete-KeepsCounts :
    (path : FilePath) (fs : FileSystem.FileSystem) → KeepsCounts fs (delete path fs).1
unfolding delete
delete-KeepsCounts path fs q =
    let p = normalize_path path in
    elim (Option-cases (Table.get p fs.files)) [
      | inl e ↦ rw (e, delete) refl
      | inr (i, e) ↦ elim (Bool-cases (ltb 0 i.meta.open_count)) [
        | inl o ↦ rw (e, delete) (rw o refl)
        | inr o ↦ elim (Bool-cases (is_some i.lock_owner)) [
          | inl l ↦ rw (e, delete) (rw (o, l) refl)
          | inr l ↦ rw (e, delete) (rw (o, l) (removed p i e (ground (arith, o))))
        ]
      ]
    ]
  where
    removed :
        (p : FilePath) (i : Inode)
        → Table.get p fs.files ≡ some i
        → i.meta.open_count ≡ 0
        → opened q (record fs { files = Table.remove p fs.files }) ≡ opened q fs
    removed p i e zero_count = elim (Bool-cases (same_codes p q)) [
      | inr k ↦ ground (arith, k, get-remove p q fs.files)
      | inl k ↦
          let here : Table.get q fs.files ≡ some i = rw (← (same_codes_iff p q).0 k) e in
          ground (arith, k, here, zero_count, get-remove p q fs.files)
    ]

-- `mkdir`, `get_metadata` and `set_simulation_tick`.
pub mkdir-KeepsCounts :
    (path : FilePath) (fs : FileSystem.FileSystem) → KeepsCounts fs (mkdir path fs).1
unfolding mkdir
mkdir-KeepsCounts path fs q = ground arith

pub get_metadata-KeepsCounts :
    (path : FilePath) (fs : FileSystem.FileSystem) → KeepsCounts fs (get_metadata path fs).1
unfolding get_metadata
get_metadata-KeepsCounts path fs = elim (Option-cases (Table.get (normalize_path path) fs.files)) [
  | inl e ↦ rw (e, get_metadata) (λ q. refl)
  | inr (i, e) ↦
      rw (e, get_metadata) (update-KeepsCounts (normalize_path path) refresh_meta fs (λ i. refl))
]

module _ {S : Type 0} (ports : FileSystemPorts S) where
  acquire_inode-KeepsCounts :
      (pid : ℕ) (p : FilePath) (owner : Option ℕ) (fs : FileSystem.FileSystem) (s : S)
      → KeepsCounts fs (acquire_inode pid p owner (some ports) fs s).1
  unfolding acquire_inode contend
  acquire_inode-KeepsCounts pid p none fs s =
      update-KeepsCounts p (set_owner (some pid)) fs (λ i. refl)
  acquire_inode-KeepsCounts pid p (some holder) fs s = elim (Bool-cases (holder == pid)) [
    | inl e ↦ rw e (update-KeepsCounts p (set_owner (some pid)) fs (λ i. refl))
    | inr e ↦ rw e (update-KeepsCounts p (add_waiter pid) fs (λ i. refl))
  ]

  hand_over-KeepsCounts :
      (p : FilePath) (waiters : List ℕ) (fs : FileSystem.FileSystem) (s : S)
      → KeepsCounts fs (hand_over p waiters (some ports) fs s).0
  unfolding hand_over
  hand_over-KeepsCounts p [] fs s = update-KeepsCounts p (set_owner none) fs (λ i. refl)
  hand_over-KeepsCounts p (w ∷ rest) fs s = update-KeepsCounts p (grant_next w rest) fs (λ i. refl)

  pub locking-KeepsCounts :
      (pid : ℕ) (path : FilePath) (fs : FileSystem.FileSystem) (s : S)
      → KeepsCounts fs (try_acquire_exclusive_lock pid path (some ports) fs s).1
        × KeepsCounts fs (release_exclusive_lock pid path (some ports) fs s).0
  unfolding try_acquire_exclusive_lock release_exclusive_lock
  locking-KeepsCounts pid path fs s =
      let p = normalize_path path in
      elim (Option-cases (Table.get p fs.files)) [
        | inl e ↦ rw (e, try_acquire_exclusive_lock, release_exclusive_lock) (λ q. refl, λ q. refl)
        | inr (i, e) ↦
            rw (e, try_acquire_exclusive_lock, release_exclusive_lock)
              (
                acquire_inode-KeepsCounts pid p i.lock_owner fs s,
                elim (Bool-cases (owned_by pid i.lock_owner)) [
                  | inl o ↦ rw o (hand_over-KeepsCounts p i.lock_waiters fs s)
                  | inr o ↦ rw o (λ q. refl)
                ],
              )
      ]
