-- ===== src/FileSystem.antt =====
-- mini_os_simulator/filesystem/file_system.py and file_system_ports.py: directories, files, their
-- metadata and the exclusive file locks. Texts are lists of code points; the set of directories is a
-- list without duplicates; a callback of the ports acts on a state `S` of its owner.
pub mod Paths
pub mod Tree
pub mod FileLock
pub mod Names
pub mod Listing
pub mod Contents
use smart_device_io_t_operat.Prelude.{
  path_key, same_codes, ℕ, ◌+◌, ◌-◌, ◌==◌, Dict, Bool, true, false, not, ◌&&◌, ◌||◌, Option, none,
  some, List, [], ◌∷◌, ◌++◌, map, keep, length, mem, ltb, is_some, if◌then◌else◌,
}
use smart_device_io_t_operat.Prelude.Table
use smart_device_io_t_operat.FileSystem.Paths.{
  FilePath, slash, root, normalize_path, parent_dir, basename,
}

pub record FileMetadata : Type 0 where
  pub name : List ℕ
  pub path : FilePath
  pub size : ℕ
  pub created_at : ℕ
  pub modified_at : ℕ
  pub owner_pid : Option ℕ
  pub open_count : ℕ
  pub locked_by : Option ℕ

pub record Inode : Type 0 where
  pub content : List ℕ
  pub meta : FileMetadata
  pub lock_owner : Option ℕ
  pub lock_waiters : List ℕ

pub record FileSystem : Type 0 where
  pub tick : ℕ
  pub dirs : List FilePath
  pub files : Dict FilePath Inode

pub record FileSystemPorts (S : Type 0) : Type 0 where
  pub block_process : ℕ → S → S
  pub wake_process : ℕ → S → S
  pub on_file_lock_blocked : Option (FilePath → ℕ → ℕ → S → S)

abbrev pub new_file_system : ℕ → FileSystem
new_file_system tick = record { tick = tick; dirs = root ∷ []; files = [] }

abbrev pub set_simulation_tick : ℕ → FileSystem → FileSystem
set_simulation_tick tick fs = record fs { tick = tick }

abbrev pub has_dir : FilePath → List FilePath → Bool
has_dir p [] = false
has_dir p (d ∷ ds) = same_codes d p || has_dir p ds

abbrev pub has_file : FilePath → FileSystem → Bool
has_file p fs = is_some (Table.get p fs.files)

unfoldable pub touch_meta_size : ℕ → Inode → Inode
touch_meta_size tick i = record i {
  meta = record i.meta { size = length i.content; modified_at = tick };
}

unfoldable pub mkdir : FilePath → FileSystem → Bool × FileSystem
mkdir path fs =
    let p = normalize_path path in
    let parent = parent_dir p in
    if same_codes p root
    then (true, fs)
    else if not (same_codes parent root) && not (has_dir parent fs.dirs)
    then (false, fs)
    else if has_dir p fs.dirs
    then (false, fs)
    else if has_file p fs
    then (false, fs)
    else (true, record fs { dirs = fs.dirs ++ p ∷ [] })

-- `list.sort` on texts, which compare by code points.
abbrev pub text_leb : List ℕ → List ℕ → Bool
text_leb [] ys = true
text_leb (x ∷ xs) [] = false
text_leb (x ∷ xs) (y ∷ ys) = ltb x y || (x == y && text_leb xs ys)

unfoldable pub insert_text : List ℕ → List (List ℕ) → List (List ℕ)
insert_text x [] = x ∷ []
insert_text x (y ∷ ys) = if text_leb x y then x ∷ y ∷ ys else y ∷ insert_text x ys

unfoldable pub sort_texts : List (List ℕ) → List (List ℕ)
unfolding insert_text
sort_texts [] = []
sort_texts (x ∷ xs) = insert_text x (sort_texts xs)

unfoldable pub list_dir : FilePath → FileSystem → Option (List (List ℕ))
unfolding sort_texts
list_dir path fs =
    let d = normalize_path path in
    let is_below =
      λ (p : FilePath). not (same_codes p d || same_codes p root) && same_codes (parent_dir p) d in
    let dirs = map basename (keep is_below fs.dirs) in
    let files = map basename (keep (λ p. same_codes (parent_dir p) d) (map (λ e. e.0) fs.files)) in
    if has_dir d fs.dirs then some (sort_texts (dirs ++ files)) else none

unfoldable pub create : FilePath → Option ℕ → FileSystem → Bool × FileSystem
create path creator_pid fs =
    let p = normalize_path path in
    let meta : FileMetadata = record {
      name = basename p;
      path = p;
      size = 0;
      created_at = fs.tick;
      modified_at = fs.tick;
      owner_pid = creator_pid;
      open_count = 0;
      locked_by = none;
    } in
    let inode : Inode = record {
      content = [];
      meta = meta;
      lock_owner = none;
      lock_waiters = [];
    } in
    if has_file p fs
    then (false, fs)
    else if has_dir p fs.dirs
    then (false, fs)
    else if not (has_dir (parent_dir p) fs.dirs)
    then (false, fs)
    else (true, record fs { files = Table.put p inode fs.files })

unfoldable pub file_exists : FilePath → FileSystem → Bool
file_exists path fs = has_file (normalize_path path) fs

-- Assignments to fields of the inode at a path.
abbrev pub update : FilePath → (Inode → Inode) → FileSystem → FileSystem
update p f fs = record fs { files = Table.modify p f fs.files }

abbrev pub refresh_meta : Inode → Inode
refresh_meta i = record i {
  meta = record i.meta { locked_by = i.lock_owner; size = length i.content };
}

unfoldable pub get_metadata : FilePath → FileSystem → Option FileMetadata × FileSystem
get_metadata path fs =
    let p = normalize_path path in
    elim (Table.get p fs.files) [
      | none ↦ (none, fs)
      | some inode ↦ (some (refresh_meta inode).meta, update p refresh_meta fs)
    ]

abbrev pub content_of : Option Inode → Option (List ℕ)
content_of none = none
content_of (some inode) = some inode.content

unfoldable pub read : FilePath → FileSystem → Option (List ℕ)
read path fs = content_of (Table.get (normalize_path path) fs.files)

-- The assignments of `write` and `append`, with the new content.
unfoldable pub store : ℕ → Option ℕ → List ℕ → Inode → Inode
unfolding touch_meta_size
store tick writer_pid content i =
    let i' = touch_meta_size tick (record i { content = content }) in
    record i' { meta = record i'.meta { owner_pid = writer_pid } }

unfoldable pub write : FilePath → List ℕ → Option ℕ → FileSystem → Bool × FileSystem
unfolding store
write path content writer_pid fs =
    let p = normalize_path path in
    if has_file p fs then (true, update p (store fs.tick writer_pid content) fs) else (false, fs)

unfoldable pub append : FilePath → List ℕ → Option ℕ → FileSystem → Bool × FileSystem
unfolding store
append path fragment writer_pid fs =
    let p = normalize_path path in
    if has_file p fs
    then (true, update p (λ i. store fs.tick writer_pid (i.content ++ fragment) i) fs)
    else (false, fs)

unfoldable pub delete : FilePath → FileSystem → Bool × FileSystem
delete path fs =
    let p = normalize_path path in
    elim (Table.get p fs.files) [
      | none ↦ (false, fs)
      | some inode ↦
          if ltb 0 inode.meta.open_count
          then (false, fs)
          else if is_some inode.lock_owner
          then (false, fs)
          else (true, record fs { files = Table.remove p fs.files })
    ]

abbrev pub owned_by : ℕ → Option ℕ → Bool
owned_by pid none = false
owned_by pid (some owner) = owner == pid

abbrev pub set_owner : Option ℕ → Inode → Inode
set_owner owner i = record i { lock_owner = owner; meta = record i.meta { locked_by = owner } }

abbrev pub add_waiter : ℕ → Inode → Inode
add_waiter pid i = record i {
  lock_waiters = if mem pid i.lock_waiters then i.lock_waiters else i.lock_waiters ++ pid ∷ [];
}

abbrev pub grant_next : ℕ → List ℕ → Inode → Inode
grant_next pid rest i = set_owner (some pid) (record i { lock_waiters = rest })

module _ {S : Type 0} where
  abbrev pub note_lock_blocked : FileSystemPorts S → FilePath → ℕ → ℕ → S → S
  note_lock_blocked ports path waiter holder s = elim ports.on_file_lock_blocked [
    | none ↦ s
    | some f ↦ f path waiter holder s
  ]

  -- The end of `try_acquire_exclusive_lock`, when `holder` is another process.
  unfoldable pub contend :
      ℕ → FilePath → ℕ → Option (FileSystemPorts S) → FileSystem → S → Bool × FileSystem × S
  contend pid p holder none fs s = (false, fs, s)
  contend pid p holder (some ports) fs s = (
    false,
    update p (add_waiter pid) fs,
    note_lock_blocked ports p pid holder (ports.block_process pid s),
  )

  unfoldable pub acquire_inode :
      ℕ → FilePath → Option ℕ → Option (FileSystemPorts S) → FileSystem → S → Bool × FileSystem × S
  unfolding contend
  acquire_inode pid p none ports fs s = (true, update p (set_owner (some pid)) fs, s)
  acquire_inode pid p (some holder) ports fs s =
      if holder == pid
      then (true, update p (set_owner (some pid)) fs, s)
      else contend pid p holder ports fs s

  unfoldable pub try_acquire_exclusive_lock :
      ℕ → FilePath → Option (FileSystemPorts S) → FileSystem → S → Bool × FileSystem × S
  unfolding acquire_inode
  try_acquire_exclusive_lock pid path ports fs s =
      let p = normalize_path path in
      elim (Table.get p fs.files) [
        | none ↦ (false, fs, s)
        | some inode ↦ acquire_inode pid p inode.lock_owner ports fs s
      ]

  abbrev pub wake : Option (FileSystemPorts S) → ℕ → S → S
  wake none pid s = s
  wake (some ports) pid s = ports.wake_process pid s

  -- The end of `release_exclusive_lock`, by the owner.
  unfoldable pub hand_over :
      FilePath → List ℕ → Option (FileSystemPorts S) → FileSystem → S → FileSystem × S
  hand_over p [] ports fs s = (update p (set_owner none) fs, s)
  hand_over p (next_pid ∷ rest) ports fs s =
      (update p (grant_next next_pid rest) fs, wake ports next_pid s)

  unfoldable pub release_exclusive_lock :
      ℕ → FilePath → Option (FileSystemPorts S) → FileSystem → S → FileSystem × S
  unfolding hand_over
  release_exclusive_lock pid path ports fs s =
      let p = normalize_path path in
      elim (Table.get p fs.files) [
        | none ↦ (fs, s)
        | some inode ↦
            if owned_by pid inode.lock_owner
            then hand_over p inode.lock_waiters ports fs s
            else (fs, s)
      ]

unfoldable pub note_open : FilePath → FileSystem → FileSystem
note_open path =
    update (normalize_path path)
      (λ i. record i { meta = record i.meta { open_count = i.meta.open_count + 1 } })

unfoldable pub note_close : FilePath → FileSystem → FileSystem
note_close path =
    update (normalize_path path)
      (λ i. record i { meta = record i.meta { open_count = i.meta.open_count - 1 } })
