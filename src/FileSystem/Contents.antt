-- ===== src/FileSystem/Contents.antt =====
-- mini_os_simulator/filesystem/file_system.py: reading after a write.
pub mod Metadata
use smart_device_io_t_operat.Prelude.{
  path_key, ℕ, ◌+◌, ◌≡◌, refl, sym, ◌∙◌, ap, inl, inr, Bool, true, false, not, ◌&&◌, Option, none,
  some, List, [], ◌∷◌, ◌++◌, ◌==◌, mem, length, is_some, map_option, if◌then◌else◌, arith,
  Option-cases, Bool-cases, same_codes, ltb,
}
use smart_device_io_t_operat.Prelude.Table
use smart_device_io_t_operat.Prelude.Table.{get-modify, get-put, get-remove, same_codes_iff}
use smart_device_io_t_operat.FileSystem.Paths.{FilePath, normalize_path, parent_dir, basename}
use smart_device_io_t_operat.FileSystem
use smart_device_io_t_operat.FileSystem.{
  Inode, FileSystemPorts, has_file, has_dir, update, store, touch_meta_size, content_of, read,
  write, append, create, delete, mkdir, get_metadata, refresh_meta, set_owner, add_waiter,
  grant_next, owned_by, try_acquire_exclusive_lock, acquire_inode, contend, release_exclusive_lock,
  hand_over, note_open, note_close, set_simulation_tick, new_file_system, list_dir,
}
use smart_device_io_t_operat.FileSystem.Tree.Runs
use smart_device_io_t_operat.FileSystem.Tree.Runs.{
  Call, ticks, makes_dir, deletes, looks_up, opens, closes, creates, writes, appends, locks,
  unlocks, step, run,
}

-- The text at `n` after the file at `p` got a new one.
stored :
    (p n : FilePath) (f : Inode → Inode) (fs : FileSystem.FileSystem) (new_text : List ℕ → List ℕ)
    → ((i : Inode) → (f i).content ≡ new_text i.content)
    → has_file p fs ≡ true
    → content_of (Table.get n (update p f fs).files) ≡ (
        if same_codes p n && true
        then map_option new_text (content_of (Table.get n fs.files))
        else content_of (Table.get n fs.files))
stored p n f fs new_text same e = elim (Bool-cases (same_codes p n)) [
  | inr k ↦ ground (arith, k, get-modify p n f fs.files)
  | inl k ↦ elim (Option-cases (Table.get n fs.files)) [
    | inl g ↦ ground (arith, k, g, get-modify p n f fs.files)
    | inr (i, g) ↦ ground (arith, k, g, same i, get-modify p n f fs.files)
  ]
]

replaced :
    (p n : FilePath) (text : List ℕ) (fs : FileSystem.FileSystem)
    → has_file p fs ≡ true
    → (if same_codes p n && true
        then map_option (λ old. text) (content_of (Table.get n fs.files))
        else content_of (Table.get n fs.files))
      ≡ (if same_codes p n && true then some text else content_of (Table.get n fs.files))
replaced p n text fs e = elim (Bool-cases (same_codes p n)) [
  | inr k ↦ ground (arith, k)
  | inl k ↦
      let there : has_file n fs ≡ true = rw (← (same_codes_iff p n).0 k) e in
      elim (Option-cases (Table.get n fs.files)) [
        | inl g ↦ ground (arith, g, there)
        | inr (i, g) ↦ ground (arith, g)
      ]
]

-- After `write` to a file that exists, reading a path that normalizes to the same path gives the
-- new text, and after `append` the old text and then the new; reading any other path, or after a
-- write to a file that does not exist, gives what it gave before.
pub read-write :
    (path q : FilePath) (text : List ℕ) (pid : Option ℕ) (fs : FileSystem.FileSystem)
    → let here =
        same_codes (normalize_path path) (normalize_path q) && has_file (normalize_path path) fs in
      (read q (write path text pid fs).1 ≡ (if here then some text else read q fs))
      × (read q (append path text pid fs).1
          ≡ (if here then map_option (λ old. old ++ text) (read q fs) else read q fs))
unfolding read write append
read-write path q text pid fs =
    let p = normalize_path path in
    let n = normalize_path q in
    elim (Bool-cases (has_file p fs)) [
      | inr e ↦ rw e (ground arith, ground arith)
      | inl e ↦ rw e (
        stored p n (store fs.tick pid text) fs (λ old. text) (λ i. refl) e ∙ replaced p n text fs e,
        stored p n (λ i. store fs.tick pid (i.content ++ text) i) fs (λ old. old ++ text)
            (λ i. refl) e,
      )
    ]
