-- ===== src/FileSystem/Names.antt =====
-- mini_os_simulator/filesystem/file_system.py, `list_dir`: sorted texts, and the names of paths that
-- pass a test.
use smart_device_io_t_operat.Prelude.{
  path_key, same_codes, ℕ, ◌≡◌, refl, inl, inr, Bool, true, false, ◌||◌, List, [], ◌∷◌, ◌++◌, map,
  keep, arith, Bool-cases,
}
use smart_device_io_t_operat.Prelude.Table.{same_codes_iff}
use smart_device_io_t_operat.FileSystem.Paths.{FilePath, basename}
use smart_device_io_t_operat.FileSystem.{has_dir, text_leb, insert_text, sort_texts}

-- No text is behind a larger one.
abbrev pub IsSorted : List (List ℕ) → Type 0
IsSorted [] = Unit {0}
IsSorted (x ∷ []) = Unit {0}
IsSorted (x ∷ y ∷ ys) = (text_leb x y ≡ true) × IsSorted (y ∷ ys)

text_leb_total : (x y : List ℕ) → text_leb x y ≡ false → text_leb y x ≡ true
text_leb_total [] y h = cc
text_leb_total (a ∷ x) [] h = refl
text_leb_total (a ∷ x) (b ∷ y) h = ground (arith, h, text_leb_total x y)

insert_text-IsSorted : (x : List ℕ) (ys : List (List ℕ)) → IsSorted ys → IsSorted (insert_text x ys)
unfolding insert_text
insert_text-IsSorted x [] s = tt
insert_text-IsSorted x (y ∷ []) s = elim (Bool-cases (text_leb x y)) [
  | inl e ↦ rw e (e, tt)
  | inr e ↦ rw e (text_leb_total x y e, tt)
]
insert_text-IsSorted x (y ∷ z ∷ zs) s = elim (Bool-cases (text_leb x y)) [
  | inl e ↦ rw e (e, s)
  | inr e ↦
      let rest = insert_text-IsSorted x (z ∷ zs) s.1 in
      elim (Bool-cases (text_leb x z)) [
        | inl f ↦ rw (e, f) (text_leb_total x y e, (f, s.1))
        | inr f ↦ rw (e, f) (s.0, rw f at rest)
      ]
]

pub sort_texts-IsSorted : (xs : List (List ℕ)) → IsSorted (sort_texts xs)
unfolding sort_texts
sort_texts-IsSorted [] = tt
sort_texts-IsSorted (x ∷ xs) = insert_text-IsSorted x (sort_texts xs) (sort_texts-IsSorted xs)

has-insert_text :
    (q x : List ℕ) (ys : List (List ℕ))
    → has_dir q (insert_text x ys) ≡ (same_codes x q || has_dir q ys)
unfolding insert_text
has-insert_text q x [] = ground arith
has-insert_text q x (y ∷ ys) = elim (Bool-cases (text_leb x y)) [
  | inl e ↦ rw e refl
  | inr e ↦ rw e (ground (arith, has-insert_text q x ys))
]

pub has-sort_texts : (q : List ℕ) (xs : List (List ℕ)) → has_dir q (sort_texts xs) ≡ has_dir q xs
unfolding sort_texts
has-sort_texts q [] = refl
has-sort_texts q (x ∷ xs) = ground (arith, has-insert_text q x (sort_texts xs), has-sort_texts q xs)

pub has-append :
    (q : List ℕ) (xs ys : List (List ℕ)) → has_dir q (xs ++ ys) ≡ (has_dir q xs || has_dir q ys)
has-append q [] ys = refl
has-append q (x ∷ xs) ys = ground (arith, has-append q xs ys)

-- A path of a list that passes a test and has a name.
abbrev Named : (FilePath → Bool) → List ℕ → List FilePath → Type 0
Named f q ps = (p : FilePath) × (has_dir p ps ≡ true) × (f p ≡ true) × (basename p ≡ q)

Named-cons :
    (f : FilePath → Bool) (q : List ℕ) (p : FilePath) (ps : List FilePath)
    → Named f q ps
    → Named f q (p ∷ ps)
Named-cons f q p ps (r, m, t, n) = (r, ground (arith, m), t, n)

pub has_name-Named :
    (f : FilePath → Bool) (q : List ℕ) (ps : List FilePath)
    → has_dir q (map basename (keep f ps)) ≡ true
    → Named f q ps
has_name-Named f q [] h = cc
has_name-Named f q (p ∷ ps) h = elim (Bool-cases (f p)) [
  | inr e ↦ Named-cons f q p ps (has_name-Named f q ps (rw e at h))
  | inl e ↦
      let h' : (same_codes (basename p) q || has_dir q (map basename (keep f ps))) ≡ true =
        ground (arith, h, e) in
      elim (Bool-cases (same_codes (basename p) q)) [
        | inl g ↦
            (p, ground (arith, (same_codes_iff p p).1 refl), e, (same_codes_iff (basename p) q).0 g)
        | inr g ↦ Named-cons f q p ps (has_name-Named f q ps (ground (arith, h', g)))
      ]
]

pub Named-has_name :
    (f : FilePath → Bool) (q : List ℕ) (ps : List FilePath)
    → Named f q ps
    → has_dir q (map basename (keep f ps)) ≡ true
Named-has_name f q [] (r, m, t, n) = cc
Named-has_name f q (p ∷ ps) (r, m, t, n) = elim (Bool-cases (same_codes p r)) [
  | inl g ↦
      let here : p ≡ r = (same_codes_iff p r).0 g in
      let passes : f p ≡ true = rw here t in
      let name : same_codes (basename p) q ≡ true = (same_codes_iff (basename p) q).1 (rw here n) in
      rw passes (ground (arith, name))
  | inr g ↦
      let rest = Named-has_name f q ps (r, ground (arith, m, g), t, n) in
      elim (Bool-cases (f p)) [ inl e ↦ rw e (ground (arith, rest)) | inr e ↦ rw e rest ]
]
