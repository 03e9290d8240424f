-- ===== src/FileSystem/FileLock.antt =====
-- mini_os_simulator/filesystem/file_system.py: the exclusive lock of a file, against a line of
-- pids.
use smart_device_io_t_operat.Prelude.{
  path_key, ℕ, ◌≡◌, refl, sym, ◌∙◌, ap, inl, inr, Bool, true, false, Option, none, some, List, [],
  ◌∷◌, ◌++◌, ◌==◌, ==_iff, mem, Distinct, Distinct-snoc, mem-append, map_option, if◌then◌else◌,
  arith, Bool-cases,
}
use smart_device_io_t_operat.Prelude.Table
use smart_device_io_t_operat.Prelude.Table.{get-modify, same_codes_iff}
use smart_device_io_t_operat.FileSystem.Paths.{FilePath, normalize_path}
use smart_device_io_t_operat.FileSystem
use smart_device_io_t_operat.FileSystem.{
  Inode, FileSystemPorts, update, set_owner, add_waiter, grant_next, owned_by,
  try_acquire_exclusive_lock, acquire_inode, contend, release_exclusive_lock, hand_over, wake,
}

-- The owner, then the waiters.
abbrev pub line_of : Option ℕ → List ℕ → List ℕ
line_of none waiters = waiters
line_of (some owner) waiters = owner ∷ waiters

pub data Call : Type 0 where
  acquires releases : ℕ → Call

-- The specification on the line: the answer of an acquisition, and the line after the call. A
-- process is put in line once.
abbrev pub spec_step : Call → List ℕ → List Bool × List ℕ
spec_step (acquires pid) [] = (true ∷ [], pid ∷ [])
spec_step (acquires pid) (h ∷ t) =
    if h == pid
    then (true ∷ [], h ∷ t)
    else (false ∷ [], h ∷ (if mem pid t then t else t ++ pid ∷ []))
spec_step (releases pid) [] = ([], [])
spec_step (releases pid) (h ∷ t) = if h == pid then ([], t) else ([], h ∷ t)

unfoldable pub spec_run : List Call → List ℕ → List Bool × List ℕ
spec_run [] l = ([], l)
spec_run (c ∷ cs) l =
    let (answers, l') = spec_step c l in
    let (answers', l'') = spec_run cs l' in (answers ++ answers', l'')

-- The file at `p` is there with that line: nobody waits for a free lock, nobody stands in line
-- twice, and the metadata show the owner.
pub record HasLine (p : FilePath) (fs : FileSystem.FileSystem) (l : List ℕ) : Type 0 where
  pub inode : Inode
  pub there : Table.get p fs.files ≡ some inode
  pub line : line_of inode.lock_owner inode.lock_waiters ≡ l
  pub served : inode.lock_owner ≡ none → inode.lock_waiters ≡ []
  pub once : Distinct l
  pub shown : inode.meta.locked_by ≡ inode.lock_owner

pub get-update :
    (p : FilePath) (f : Inode → Inode) (fs : FileSystem.FileSystem) (i : Inode)
    → Table.get p fs.files ≡ some i
    → Table.get p (update p f fs).files ≡ some (f i)
get-update p f fs i e =
    get-modify p p f fs.files
    ∙ ap (λ b. if b then map_option f (Table.get p fs.files) else Table.get p fs.files)
        ((same_codes_iff p p).1 refl)
    ∙ ap (map_option f) e

waiting-Distinct :
    (h pid : ℕ) (t : List ℕ)
    → (h == pid) ≡ false
    → Distinct (h ∷ t)
    → Distinct (h ∷ (if mem pid t then t else t ++ pid ∷ []))
waiting-Distinct h pid t o d = ground (arith, d, mem-append h t (pid ∷ []), Distinct-snoc pid t)

module _ {S : Type 0} (ports : FileSystemPorts S) (path : FilePath) where
  unfoldable pub step : Call → FileSystem.FileSystem → S → List Bool × FileSystem.FileSystem × S
  step (acquires pid) fs s =
      let (granted, fs', s') = try_acquire_exclusive_lock pid path (some ports) fs s in
      (granted ∷ [], fs', s')
  step (releases pid) fs s =
      let (fs', s') = release_exclusive_lock pid path (some ports) fs s in ([], fs', s')

  unfoldable pub run : List Call → FileSystem.FileSystem → S → List Bool × FileSystem.FileSystem × S
  run [] fs s = ([], fs, s)
  run (c ∷ cs) fs s =
      let (answers, fs', s') = step c fs s in
      let (answers', fs'', s'') = run cs fs' s' in (answers ++ answers', fs'', s'')

  abbrev Agrees : List Bool × FileSystem.FileSystem × S → List Bool × List ℕ → Type 0
  Agrees r t = (r.0 ≡ t.0) × HasLine (normalize_path path) r.1 t.1

  -- A change of the inode that leaves it with a given line.
  updated-HasLine :
      (f : Inode → Inode) (fs : FileSystem.FileSystem) (i : Inode) (l : List ℕ)
      → Table.get (normalize_path path) fs.files ≡ some i
      → line_of (f i).lock_owner (f i).lock_waiters ≡ l
      → ((f i).lock_owner ≡ none → (f i).lock_waiters ≡ [])
      → Distinct l
      → (f i).meta.locked_by ≡ (f i).lock_owner
      → HasLine (normalize_path path) (update (normalize_path path) f fs) l
  updated-HasLine f fs i l e line served once shown = record {
    inode = f i;
    there = get-update (normalize_path path) f fs i e;
    line = line;
    served = served;
    once = once;
    shown = shown;
  }

  acquire-Agrees :
      (pid : ℕ) (fs : FileSystem.FileSystem) (s : S) (l : List ℕ)
      (v : HasLine (normalize_path path) fs l) (o : Option ℕ)
      → v.inode.lock_owner ≡ o
      → Agrees (step (acquires pid) fs s) (spec_step (acquires pid) l)
  unfolding step try_acquire_exclusive_lock acquire_inode contend
  acquire-Agrees pid fs s l v none e =
      let empty : l ≡ [] = sym v.line ∙ ap (λ x. line_of x v.inode.lock_waiters) e ∙ v.served e in
      rw (v.there, try_acquire_exclusive_lock)
        (rw (e, empty)
          (
            refl,
            updated-HasLine (set_owner (some pid)) fs v.inode (pid ∷ []) v.there
                (ap (◌∷◌ pid) (v.served e)) (λ h. cc) (refl, tt) refl,
          ))
  acquire-Agrees pid fs s l v (some h) e =
      let i = v.inode in
      let full : l ≡ h ∷ i.lock_waiters = sym v.line ∙ ap (λ x. line_of x i.lock_waiters) e in
      let once : Distinct (h ∷ i.lock_waiters) = rw full at v.once in
      rw (v.there, try_acquire_exclusive_lock)
        (rw (e, full)
          (elim (Bool-cases (h == pid)) [
            | inl o ↦ rw o (
              refl,
              updated-HasLine (set_owner (some pid)) fs i (h ∷ i.lock_waiters) v.there
                  (ap (λ x. x ∷ i.lock_waiters) (sym ((==_iff h pid).0 o))) (λ k. cc) once refl,
            )
            | inr o ↦ rw o (
              refl,
              updated-HasLine (add_waiter pid) fs i _ v.there
                  (ap (λ x. line_of x (add_waiter pid i).lock_waiters) e) (λ k. cc (k, e))
                  (waiting-Distinct h pid i.lock_waiters o once) v.shown,
            )
          ]))

  release-Agrees :
      (pid : ℕ) (fs : FileSystem.FileSystem) (s : S) (l : List ℕ)
      (v : HasLine (normalize_path path) fs l) (o : Option ℕ) (w : List ℕ)
      → v.inode.lock_owner ≡ o
      → v.inode.lock_waiters ≡ w
      → Agrees (step (releases pid) fs s) (spec_step (releases pid) l)
  unfolding step release_exclusive_lock hand_over
  release-Agrees pid fs s l v none w e f =
      let empty : l ≡ [] = sym v.line ∙ ap (λ x. line_of x v.inode.lock_waiters) e ∙ v.served e in
      rw (v.there, release_exclusive_lock) (rw e (rw empty (refl, rw empty at v)))
  release-Agrees pid fs s l v (some h) w e f =
      let i = v.inode in
      let full : l ≡ h ∷ w = sym v.line ∙ ap (λ x. line_of x i.lock_waiters) e ∙ ap (◌∷◌ h) f in
      let once : Distinct (h ∷ w) = rw full at v.once in
      rw (v.there, release_exclusive_lock)
        (rw (e, full)
          (rw f (elim (Bool-cases (h == pid)) [
            | inr o ↦ rw o (refl, rw full at v)
            | inl o ↦ rw o (refl, passed w f once.1)
          ])))
    where
      passed :
          (w : List ℕ)
          → v.inode.lock_waiters ≡ w
          → Distinct w
          → HasLine (normalize_path path) (hand_over (normalize_path path) w (some ports) fs s).0 w
      passed [] f d = updated-HasLine (set_owner none) fs v.inode [] v.there f (λ k. f) tt refl
      passed (next ∷ rest) f d =
          updated-HasLine (grant_next next rest) fs v.inode (next ∷ rest) v.there refl (λ k. cc) d
            refl

  step-Agrees :
      (c : Call) (fs : FileSystem.FileSystem) (s : S) (l : List ℕ)
      → HasLine (normalize_path path) fs l
      → Agrees (step c fs s) (spec_step c l)
  step-Agrees (acquires pid) fs s l v = acquire-Agrees pid fs s l v v.inode.lock_owner refl
  step-Agrees (releases pid) fs s l v =
      release-Agrees pid fs s l v v.inode.lock_owner v.inode.lock_waiters refl refl

  -- Over any acquisitions and releases of a file's lock with ports, from a file with a line of
  -- pids without duplicates: the answers are those of the line, in which a process is put once;
  -- the owner and the waiters are the line after the calls, nobody waits for a free lock, and
  -- the metadata show the owner.
  pub run-Agrees :
      (cs : List Call) (fs : FileSystem.FileSystem) (s : S) (l : List ℕ)
      → HasLine (normalize_path path) fs l
      → ((run cs fs s).0 ≡ (spec_run cs l).0)
        × HasLine (normalize_path path) (run cs fs s).1 (spec_run cs l).1
  unfolding run spec_run
  run-Agrees [] fs s l v = (refl, v)
  run-Agrees (c ∷ cs) fs s l v =
      let (a, w) = step-Agrees c fs s l v in
      let (p, u) = run-Agrees cs (step c fs s).1 (step c fs s).2 (spec_step c l).1 w in
      (cc (a, p), u)
