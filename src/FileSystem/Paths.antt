-- ===== src/FileSystem/Paths.antt =====
-- mini_os_simulator/filesystem/file_system.py: `normalize_path`, `parent_dir` and `basename`.
-- A path is a list of code points; white space is that of Python's `str.strip`.
use smart_device_io_t_operat.Prelude.{
  ℕ, Bool, ◌&&◌, ◌||◌, Option, none, some, List, [], ◌∷◌, ◌++◌, map, leb, ◌==◌, same_codes,
  if◌then◌else◌,
}

abbrev pub FilePath : Type 0
FilePath = List ℕ

abbrev pub slash : ℕ
slash = b'/'

abbrev pub backslash : ℕ
backslash = 92

abbrev pub dot : ℕ
dot = b'.'

abbrev pub root : FilePath
root = slash ∷ []

-- `str.isspace`
unfoldable pub is_space : ℕ → Bool
is_space c =
    (leb 9 c && leb c 13)
    || (leb 28 c && leb c 32)
    || c == 133
    || c == 160
    || c == 5760
    || (leb 8192 c && leb c 8202)
    || c == 8232
    || c == 8233
    || c == 8239
    || c == 8287
    || c == 12288

unfoldable pub lstrip : List ℕ → List ℕ
lstrip [] = []
lstrip (c ∷ cs) = let rest = lstrip cs in if is_space c then rest else c ∷ cs

-- A character before a text that is stripped already.
unfoldable pub before_stripped : ℕ → List ℕ → List ℕ
before_stripped c [] = if is_space c then [] else c ∷ []
before_stripped c (d ∷ ds) = c ∷ d ∷ ds

unfoldable pub rstrip : List ℕ → List ℕ
unfolding before_stripped
rstrip [] = []
rstrip (c ∷ cs) = before_stripped c (rstrip cs)

-- `path.replace("\\", "/")`
unfoldable pub to_posix : List ℕ → List ℕ
to_posix = map (λ c. if c == backslash then slash else c)

abbrev pub cons_first : ℕ → List (List ℕ) → List (List ℕ)
cons_first c [] = (c ∷ []) ∷ []
cons_first c (s ∷ ss) = (c ∷ s) ∷ ss

-- `p.split("/")`
unfoldable pub split_slash : List ℕ → List (List ℕ)
split_slash [] = [] ∷ []
split_slash (c ∷ cs) =
    let rest = split_slash cs in if c == slash then [] ∷ rest else cons_first c rest

abbrev pub drop_last {ℓ} : {A : Type ℓ} → List A → List A
drop_last [] = []
drop_last (x ∷ []) = []
drop_last (x ∷ y ∷ ys) = x ∷ drop_last (y ∷ ys)

-- One round of the loop over the segments.
unfoldable pub visit : List (List ℕ) → List ℕ → List (List ℕ)
visit parts seg =
    if same_codes seg [] || same_codes seg (dot ∷ [])
    then parts
    else if same_codes seg (dot ∷ dot ∷ [])
    then drop_last parts
    else parts ++ seg ∷ []

unfoldable pub resolve : List (List ℕ) → List (List ℕ) → List (List ℕ)
resolve parts [] = parts
resolve parts (seg ∷ segs) = resolve (visit parts seg) segs

-- `"/" + "/".join(parts) if parts else "/"`
unfoldable pub join_parts : List (List ℕ) → FilePath
join_parts [] = []
join_parts (s ∷ ss) = slash ∷ s ++ join_parts ss

abbrev pub or_root : FilePath → FilePath
or_root [] = root
or_root (c ∷ cs) = c ∷ cs

abbrev pub with_slash : FilePath → FilePath
with_slash [] = root
with_slash (c ∷ cs) = if c == slash then c ∷ cs else slash ∷ c ∷ cs

unfoldable pub normalize_path : FilePath → FilePath
normalize_path path =
    let p = rstrip (lstrip (to_posix path)) in
    if same_codes p [] || same_codes p root
    then root
    else or_root (join_parts (resolve [] (split_slash (with_slash p))))

-- The text before and after the last slash.
unfoldable pub rsplit_slash : List ℕ → Option (List ℕ × List ℕ)
rsplit_slash [] = none
rsplit_slash (c ∷ cs) = elim (rsplit_slash cs) [
  | none ↦ if c == slash then some ([], cs) else none
  | some (front, last) ↦ some (c ∷ front, last)
]

abbrev pub front_of : FilePath → Option (List ℕ × List ℕ) → List ℕ
front_of n none = n
front_of n (some (front, last)) = front

abbrev pub last_of : FilePath → Option (List ℕ × List ℕ) → List ℕ
last_of n none = n
last_of n (some (front, last)) = last

unfoldable pub parent_dir : FilePath → FilePath
parent_dir path =
    let n = normalize_path path in
    if same_codes n root then root else or_root (front_of n (rsplit_slash n))

unfoldable pub basename : FilePath → List ℕ
basename path =
    let n = normalize_path path in if same_codes n root then [] else last_of n (rsplit_slash n)
