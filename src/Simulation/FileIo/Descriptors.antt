-- ===== src/Simulation/FileIo/Descriptors.antt =====
-- mini_os_simulator/os_core/simulation.py, `open_file` and `close_file`: the table of open files and
-- the counts that the files keep of it.
pub mod Kept
pub mod Jobs
pub mod Ticks
pub mod Starts
pub mod Runs
use smart_device_io_t_operat.Prelude.{
  nat_key, path_key, ℕ, ◌+◌, ◌-◌, ◌<◌, ◌≤◌, ◌≡◌, refl, sym, ◌∙◌, ap, inl, inr, Bool, true, false,
  not, Option, none, some, List, [], ◌∷◌, ◌++◌, map, keep, mem, mem-append, mem-keep, Distinct,
  Distinct-snoc, Distinct-keep, ◌==◌, ==_iff, ltb, is_some, if◌then◌else◌, arith, Dict,
  Option-cases, Bool-cases, same_codes,
}
use smart_device_io_t_operat.Prelude.Table
use smart_device_io_t_operat.Prelude.Table.{get-modify, get-put, get-remove, same_codes_iff}
use smart_device_io_t_operat.FileSystem.{
  FileSystem, Inode, update, note_open, note_close, file_exists, has_file,
}
use smart_device_io_t_operat.FileSystem.Paths.{FilePath, normalize_path}
use smart_device_io_t_operat.Simulation.State.{OpenFileDescriptor}

-- The count of open descriptors in the metadata of the file at a path.
abbrev pub open_count : Option Inode → ℕ
open_count none = 0
open_count (some i) = i.meta.open_count

abbrev pub opened : FilePath → FileSystem → ℕ
opened q fs = open_count (Table.get q fs.files)

-- Whether a descriptor is for the file at a path.
abbrev pub is_for : FilePath → OpenFileDescriptor → Bool
is_for q d = same_codes (normalize_path d.path) q

abbrev pub one_if : Bool → ℕ
one_if b = if b then 1 else 0

pub holders : FilePath → Dict ℕ OpenFileDescriptor → ℕ
holders q [] = 0
holders q ((fd, d) ∷ ds) = one_if (is_for q d) + holders q ds

abbrev pub fds : Dict ℕ OpenFileDescriptor → List ℕ
fds = map (λ e. e.0)

-- The table of open descriptors.
holders-put :
    (q : FilePath) (fd : ℕ) (d : OpenFileDescriptor) (ds : Dict ℕ OpenFileDescriptor)
    → mem fd (fds ds) ≡ false
    → holders q (Table.put fd d ds) ≡ holders q ds + one_if (is_for q d)
unfolding holders Table.put
holders-put q fd d [] h = omega arith
holders-put q fd d ((k, e) ∷ ds) h = ground (arith, holders-put q fd d ds)

fds-put :
    (fd : ℕ) (d : OpenFileDescriptor) (ds : Dict ℕ OpenFileDescriptor)
    → mem fd (fds ds) ≡ false
    → fds (Table.put fd d ds) ≡ fds ds ++ fd ∷ []
unfolding Table.put
fds-put fd d [] h = refl
fds-put fd d ((k, e) ∷ ds) h = ground (arith, fds-put fd d ds)

fds-remove :
    (fd : ℕ) (ds : Dict ℕ OpenFileDescriptor)
    → fds (Table.remove fd ds) ≡ keep (λ k. not (k == fd)) (fds ds)
unfolding Table.remove
fds-remove fd [] = refl
fds-remove fd ((k, e) ∷ ds) = ground (arith, fds-remove fd ds)

holders-remove_absent :
    (q : FilePath) (fd : ℕ) (ds : Dict ℕ OpenFileDescriptor)
    → mem fd (fds ds) ≡ false
    → holders q (Table.remove fd ds) ≡ holders q ds
unfolding holders Table.remove
holders-remove_absent q fd [] h = refl
holders-remove_absent q fd ((k, e) ∷ ds) h = ground (arith, holders-remove_absent q fd ds)

holders-remove :
    (q : FilePath) (fd : ℕ) (d : OpenFileDescriptor) (ds : Dict ℕ OpenFileDescriptor)
    → Distinct (fds ds)
    → Table.get fd ds ≡ some d
    → holders q (Table.remove fd ds) + one_if (is_for q d) ≡ holders q ds
unfolding holders Table.remove Table.get
holders-remove q fd d [] u h = cc
holders-remove q fd d ((k, e) ∷ ds) u h = elim (Bool-cases (k == fd)) [
  | inl same ↦ ground (arith, same, holders-remove_absent q fd ds)
  | inr apart ↦ ground (arith, apart, holders-remove q fd d ds u.1)
]

-- Every file counts its open descriptors, whose numbers are distinct and were given out.
pub record IsCounted (ds : Dict ℕ OpenFileDescriptor) (next_fd : ℕ) (fs : FileSystem) : Type 0 where
  pub distinct : Distinct (fds ds)
  pub below : (fd : ℕ) → mem fd (fds ds) ≡ true → fd < next_fd
  pub counted : (q : FilePath) → opened q fs ≡ holders q ds

opened-note_open :
    (p q : FilePath) (fs : FileSystem)
    → has_file (normalize_path p) fs ≡ true
    → opened q (note_open p fs) ≡ opened q fs + one_if (same_codes (normalize_path p) q)
unfolding note_open
opened-note_open p q fs h = elim (Bool-cases (same_codes (normalize_path p) q)) [
  | inr e ↦ ground (
    arith,
    e,
    get-modify (normalize_path p) q
        (λ i. record i { meta = record i.meta { open_count = i.meta.open_count + 1 } }) fs.files,
  )
  | inl e ↦
      let there : has_file q fs ≡ true = rw (← (same_codes_iff (normalize_path p) q).0 e) h in
      elim (Option-cases (Table.get q fs.files)) [
        | inl g ↦ ground (arith, g, there)
        | inr (i, g) ↦ ground (
          arith,
          e,
          g,
          get-modify (normalize_path p) q
              (λ i. record i { meta = record i.meta { open_count = i.meta.open_count + 1 } })
              fs.files,
        )
      ]
]

opened-note_close :
    (p q : FilePath) (fs : FileSystem)
    → opened q (note_close p fs) ≡ opened q fs - one_if (same_codes (normalize_path p) q)
unfolding note_close
opened-note_close p q fs = ground (
  arith,
  get-modify (normalize_path p) q
      (λ i. record i { meta = record i.meta { open_count = i.meta.open_count - 1 } }) fs.files,
)

pub opened-IsCounted :
    (d : OpenFileDescriptor) (ds : Dict ℕ OpenFileDescriptor) (next_fd : ℕ) (fs : FileSystem)
    → has_file (normalize_path d.path) fs ≡ true
    → IsCounted ds next_fd fs
    → IsCounted (Table.put next_fd d ds) (next_fd + 1) (note_open d.path fs)
opened-IsCounted d ds next_fd fs h v = record {
  distinct = rw (fds-put next_fd d ds fresh) (Distinct-snoc next_fd (fds ds) fresh v.distinct);
  below = λ fd m.
      let found : mem fd (fds ds ++ next_fd ∷ []) ≡ true =
        ap (mem fd) (sym (fds-put next_fd d ds fresh)) ∙ m in
      ground (arith, mem-append fd (fds ds) (next_fd ∷ []), v.below fd);
  counted = λ q.
      omega (arith, opened-note_open d.path q fs h, holders-put q next_fd d ds fresh, v.counted q);
}
  where
    fresh : mem next_fd (fds ds) ≡ false
    fresh = elim (Bool-cases (mem next_fd (fds ds))) [
      | inl e ↦ absurd (omega (arith, v.below next_fd e))
      | inr e ↦ e
    ]

pub closed-IsCounted :
    (fd : ℕ) (d : OpenFileDescriptor) (ds : Dict ℕ OpenFileDescriptor) (next_fd : ℕ)
    (fs : FileSystem)
    → Table.get fd ds ≡ some d
    → IsCounted ds next_fd fs
    → IsCounted (Table.remove fd ds) next_fd (note_close d.path fs)
closed-IsCounted fd d ds next_fd fs h v = record {
  distinct = rw (fds-remove fd ds) (Distinct-keep (λ k. not (k == fd)) (fds ds) v.distinct);
  below = λ k m.
      let found : mem k (keep (λ j. not (j == fd)) (fds ds)) ≡ true =
        ap (mem k) (sym (fds-remove fd ds)) ∙ m in
      ground (arith, mem-keep k (λ j. not (j == fd)) (fds ds), v.below k);
  counted = λ q.
      omega
        (arith, opened-note_close d.path q fs, holders-remove q fd d ds v.distinct h, v.counted q);
}
