-- ===== src/Prelude/Table.antt =====
-- Python's `dict`: an association list in insertion order. A write to a present key keeps its place.
use Prim.Native.Nat.{ℕ}
use mathlib.Core.Path.{◌≡◌, refl}
use mathlib.Core.Logic.{◌↔◌}
use mathlib.Core.Bool.{Bool, true, false, ◌&&◌}
use mathlib.Core.List.{List, [], ◌∷◌, map}
use mathlib.Core.Option.{Option, none, some}
use native.Mathlib.Omega.{arith}
use smart_device_io_t_operat.Prelude.Tests.{◌==◌, ==_iff, map_option, if◌then◌else◌}

-- A type of keys with a test for equality.
pub record Key {ℓ} (K : Type ℓ) : Type ℓ where
  pub beq : K → K → Bool
  pub beq_iff : (a b : K) → (beq a b ≡ true) ↔ (a ≡ b)

instance abbrev pub nat_key : Key ℕ
nat_key = record { beq = ◌==◌; beq_iff = ==_iff }

-- Texts as lists of code points.
abbrev pub same_codes : List ℕ → List ℕ → Bool
same_codes [] [] = true
same_codes [] (b ∷ ys) = false
same_codes (a ∷ xs) [] = false
same_codes (a ∷ xs) (b ∷ ys) = a == b && same_codes xs ys

same_codes_sound : (a b : List ℕ) → same_codes a b ≡ true → a ≡ b
same_codes_sound [] [] h = refl
same_codes_sound [] (b ∷ ys) h = cc
same_codes_sound (a ∷ xs) [] h = cc
same_codes_sound (a ∷ xs) (b ∷ ys) h = ground (arith, same_codes_sound xs ys)

same_codes_refl : (a : List ℕ) → same_codes a a ≡ true
same_codes_refl [] = refl
same_codes_refl (a ∷ xs) = ground (arith, same_codes_refl xs)

pub same_codes_iff : (a b : List ℕ) → (same_codes a b ≡ true) ↔ (a ≡ b)
same_codes_iff a b = (same_codes_sound a b, λ e. rw e (same_codes_refl b))

instance abbrev pub path_key : Key (List ℕ)
path_key = record { beq = same_codes; beq_iff = same_codes_iff }

abbrev pub Dict {ℓ} : Type ℓ → Type ℓ → Type ℓ
Dict K V = List (K × V)

-- list(d.values())
abbrev pub values {ℓ} : {K V : Type ℓ} → Dict K V → List V
values = map (λ e. e.1)

module _ {ℓ} {K V : Type ℓ} ⦃e : Key K⦄ where
  -- d.get(k)
  unfoldable pub get : K → Dict K V → Option V
  get k [] = none
  get k ((j, v) ∷ d) = if e.beq j k then some v else get k d

  -- d[k] = v
  unfoldable pub put : K → V → Dict K V → Dict K V
  put k v [] = (k, v) ∷ []
  put k v ((j, w) ∷ d) = if e.beq j k then (j, v) ∷ d else (j, w) ∷ put k v d

  -- d.pop(k, None), del d[k]
  unfoldable pub remove : K → Dict K V → Dict K V
  remove k [] = []
  remove k ((j, w) ∷ d) = let rest = remove k d in if e.beq j k then rest else (j, w) ∷ rest

  -- An assignment to fields of the object at k; nothing where k is absent.
  unfoldable pub modify : K → (V → V) → Dict K V → Dict K V
  modify k f [] = []
  modify k f ((j, w) ∷ d) =
      let rest = modify k f d in if e.beq j k then (j, f w) ∷ rest else (j, w) ∷ rest

  pub get-put :
      (k j : K) (v : V) (d : Dict K V) → get j (put k v d) ≡ (if e.beq k j then some v else get j d)
  unfolding get put
  get-put k j v [] = refl
  get-put k j v ((i, w) ∷ d) =
      ground (arith, e.beq_iff i k, e.beq_iff i j, e.beq_iff k j, get-put k j v d)

  pub get-remove :
      (k j : K) (d : Dict K V) → get j (remove k d) ≡ (if e.beq k j then none else get j d)
  unfolding get remove
  get-remove k j [] = ground arith
  get-remove k j ((i, w) ∷ d) =
      ground (arith, e.beq_iff i k, e.beq_iff i j, e.beq_iff k j, get-remove k j d)

  pub get-modify :
      (k j : K) (f : V → V) (d : Dict K V)
      → get j (modify k f d) ≡ (if e.beq k j then map_option f (get j d) else get j d)
  unfolding get modify
  get-modify k j f [] = ground arith
  get-modify k j f ((i, w) ∷ d) =
      ground (arith, e.beq_iff i k, e.beq_iff i j, e.beq_iff k j, get-modify k j f d)

  pub modify_absent : (k : K) (f : V → V) (d : Dict K V) → get k d ≡ none → modify k f d ≡ d
  unfolding get modify
  modify_absent k f [] h = refl
  modify_absent k f ((i, w) ∷ d) h = ground (arith, modify_absent k f d)
