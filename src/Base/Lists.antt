-- ===== src/Base/Lists.antt =====
-- Lists measured and indexed by native numbers, under the library's names.
use Prim.Native.Nat.{ℕ, zero, suc, ◌+◌, ◌-◌, min}
use mathlib.Core.Path.{◌≡◌, refl, ap, sym, ◌∙◌}
use mathlib.Core.Logic.{◌⊎◌, inl, inr, ◌≢◌}
use mathlib.Core.List.{List, [], ◌∷◌, ◌++◌}
use mathlib.Core.Bool.{Bool, true, false}
use mathlib.Core.Option.{Option, none, some}
use native.Mathlib.Omega.{arith}
use nnemu.Base.Tests.{if◌then◌else◌, ◌==◌, Bool-cases}

module _ {ℓ} {A : Type ℓ} where
  abbrev pub length : List A → ℕ
  length [] = 0
  length (x ∷ xs) = suc (length xs)

  abbrev pub get_or : List A → ℕ → A → A
  get_or [] i d = d
  get_or (x ∷ xs) zero d = x
  get_or (x ∷ xs) (suc i) d = get_or xs i d

  -- A write out of range changes nothing.
  abbrev pub set : List A → ℕ → A → List A
  set [] i v = []
  set (x ∷ xs) zero v = v ∷ xs
  set (x ∷ xs) (suc i) v = x ∷ set xs i v

  abbrev pub get_elem? : List A → ℕ → Option A
  get_elem? [] i = none
  get_elem? (x ∷ xs) zero = some x
  get_elem? (x ∷ xs) (suc i) = get_elem? xs i

  abbrev pub take : ℕ → List A → List A
  take zero xs = []
  take (suc n) [] = []
  take (suc n) (x ∷ xs) = x ∷ take n xs

  abbrev pub drop : ℕ → List A → List A
  drop zero xs = xs
  drop (suc n) [] = []
  drop (suc n) (x ∷ xs) = drop n xs

  abbrev pub replicate : ℕ → A → List A
  replicate zero a = []
  replicate (suc n) a = a ∷ replicate n a

  pub length-set : (xs : List A) (i : ℕ) (v : A) → length (set xs i v) ≡ length xs
  length-set [] i v = refl
  length-set (x ∷ xs) zero v = refl
  length-set (x ∷ xs) (suc i) v = omega (arith, length-set xs i v)

  pub length-replicate : (n : ℕ) (a : A) → length (replicate n a) ≡ n
  length-replicate zero a = refl
  length-replicate (suc n) a = omega (arith, length-replicate n a)

  pub length-append : (xs ys : List A) → length (xs ++ ys) ≡ length xs + length ys
  length-append [] ys = omega arith
  length-append (x ∷ xs) ys = omega (arith, length-append xs ys)

  pub length-take : (n : ℕ) (xs : List A) → length (take n xs) ≡ min n (length xs)
  length-take zero xs = omega arith
  length-take (suc n) [] = omega arith
  length-take (suc n) (x ∷ xs) = omega (arith, length-take n xs)

  pub length-drop : (n : ℕ) (xs : List A) → length (drop n xs) ≡ length xs - n
  length-drop zero xs = omega arith
  length-drop (suc n) [] = omega arith
  length-drop (suc n) (x ∷ xs) = omega (arith, length-drop n xs)

  pub take-append-drop : (n : ℕ) (xs : List A) → take n xs ++ drop n xs ≡ xs
  take-append-drop zero xs = refl
  take-append-drop (suc n) [] = refl
  take-append-drop (suc n) (x ∷ xs) = ap (◌∷◌ x) (take-append-drop n xs)

  -- Reading after a write in range.
  pub get_elem?-set :
      (xs : List A) (n i : ℕ) (v old : A)
      → get_elem? xs n ≡ some old
      → get_elem? (set xs n v) i ≡ (if i == n then some v else get_elem? xs i)
  get_elem?-set [] n i v old h = absurd (ground arith)
  get_elem?-set (x ∷ xs) zero zero v old h = refl
  get_elem?-set (x ∷ xs) zero (suc i) v old h = ground arith
  get_elem?-set (x ∷ xs) (suc n) zero v old h = ground arith
  get_elem?-set (x ∷ xs) (suc n) (suc i) v old h = ground (arith, get_elem?-set xs n i v old h)

  -- What is read after a write in range is the new value, or an old one at another place.
  pub set_cases :
      (xs : List A) (n i : ℕ) (v old a : A)
      → get_elem? xs n ≡ some old
      → get_elem? (set xs n v) i ≡ some a
      → ((i ≡ n) × (v ≡ a)) ⊎ ((i ≢ n) × (get_elem? xs i ≡ some a))
  set_cases xs n i v old a h g = elim (Bool-cases (i == n)) [
    | inl same ↦ inl (ground arith, let new : some v ≡ some a = read true same in cc)
    | inr other ↦ inr (ground arith, read false other)
  ]
    where
      read : (b : Bool) → (i == n) ≡ b → (if b then some v else get_elem? xs i) ≡ some a
      read b e =
          ap (λ t. if t then some v else get_elem? xs i) (sym e)
          ∙ sym (get_elem?-set xs n i v old h)
          ∙ g
