-- ===== src/Base/Lists.antt =====
-- Lists measured and indexed by native numbers, under the library's names.
use Prim.Native.Nat.{ℕ, zero, suc, ◌+◌, ◌-◌, ◌≤◌}
use mathlib.Core.Path.{◌≡◌, refl, ap, subst}
use mathlib.Core.Logic.{◌⊎◌, inl, inr}
use mathlib.Core.Bool.{Bool, true, false, ◌&&◌, ◌||◌}
use mathlib.Core.List.{List, [], ◌∷◌, ◌++◌}
use mathlib.Core.Option.{Option, none, some, some-injective, none-ne-some}
use native.Mathlib.Omega.{arith}

module _ {ℓ} {A : Type ℓ} where
  abbrev pub length : List A → ℕ
  length [] = 0
  length (x ∷ xs) = suc (length xs)

  abbrev pub get_elem? : List A → ℕ → Option A
  get_elem? [] i = none
  get_elem? (x ∷ xs) zero = some x
  get_elem? (x ∷ xs) (suc i) = get_elem? xs i

  -- A write out of bounds changes nothing.
  abbrev pub set : List A → ℕ → A → List A
  set [] i v = []
  set (x ∷ xs) zero v = v ∷ xs
  set (x ∷ xs) (suc i) v = x ∷ set xs i v

  abbrev pub take : ℕ → List A → List A
  take zero xs = []
  take (suc n) [] = []
  take (suc n) (x ∷ xs) = x ∷ take n xs

  abbrev pub drop : ℕ → List A → List A
  drop zero xs = xs
  drop (suc n) [] = []
  drop (suc n) (x ∷ xs) = drop n xs

  abbrev pub replicate : ℕ → A → List A
  replicate zero a = []
  replicate (suc n) a = a ∷ replicate n a

  -- `std::any_of` and `std::all_of`.
  abbrev pub any : (A → Bool) → List A → Bool
  any p [] = false
  any p (x ∷ xs) = p x || any p xs

  abbrev pub all : (A → Bool) → List A → Bool
  all p [] = true
  all p (x ∷ xs) = p x && all p xs

module _ {ℓ} {A : Type ℓ} where
  pub length-append : (xs ys : List A) → length (xs ++ ys) ≡ length xs + length ys
  length-append [] ys = omega arith
  length-append (x ∷ xs) ys = omega (arith, length-append xs ys)

  pub length-set : (xs : List A) (i : ℕ) (v : A) → length (set xs i v) ≡ length xs
  length-set [] i v = refl
  length-set (x ∷ xs) zero v = refl
  length-set (x ∷ xs) (suc i) v = ap suc (length-set xs i v)

  pub length-drop : (n : ℕ) (xs : List A) → length (drop n xs) ≡ length xs - n
  length-drop zero xs = omega arith
  length-drop (suc n) [] = omega arith
  length-drop (suc n) (x ∷ xs) = omega (arith, length-drop n xs)

  pub length-replicate : (n : ℕ) (a : A) → length (replicate n a) ≡ n
  length-replicate zero a = refl
  length-replicate (suc n) a = ap suc (length-replicate n a)

  pub take-append-drop : (n : ℕ) (xs : List A) → take n xs ++ drop n xs ≡ xs
  take-append-drop zero xs = refl
  take-append-drop (suc n) [] = refl
  take-append-drop (suc n) (x ∷ xs) = rw (take-append-drop n xs)

-- Access behind a prefix.
module _ {ℓ} {A : Type ℓ} where
  pub get_elem?-append :
      (front : List A) (x : A) (xs : List A) → get_elem? (front ++ x ∷ xs) (length front) ≡ some x
  get_elem?-append [] x xs = refl
  get_elem?-append (y ∷ front) x xs = get_elem?-append front x xs

  pub set-append :
      (front : List A) (x v : A) (xs : List A)
      → set (front ++ x ∷ xs) (length front) v ≡ front ++ v ∷ xs
  set-append [] x v xs = refl
  set-append (y ∷ front) x v xs = ap (λ ys. y ∷ ys) (set-append front x v xs)

  -- An element of a list with one more at its end.
  pub get_elem?-snoc :
      (xs : List A) (y : A) (j : ℕ) (x : A)
      → get_elem? (xs ++ y ∷ []) j ≡ some x
      → (get_elem? xs j ≡ some x) ⊎ ((j ≡ length xs) × (x ≡ y))
  get_elem?-snoc [] y zero x e = inr (refl, cc)
  get_elem?-snoc [] y (suc j) x e = cc
  get_elem?-snoc (z ∷ xs) y zero x e = inl e
  get_elem?-snoc (z ∷ xs) y (suc j) x e = elim (get_elem?-snoc xs y j x e) [
    | inl old ↦ inl old
    | inr (place, new) ↦ inr (ap suc place, new)
  ]

  pub get_elem?-front :
      (xs ys : List A) (j : ℕ) (x : A) → get_elem? xs j ≡ some x → get_elem? (xs ++ ys) j ≡ some x
  get_elem?-front [] ys j x e = cc
  get_elem?-front (z ∷ xs) ys zero x e = e
  get_elem?-front (z ∷ xs) ys (suc j) x e = get_elem?-front xs ys j x e

  pub get_elem?-bound : (xs : List A) (j : ℕ) (x : A) → get_elem? xs j ≡ some x → suc j ≤ length xs
  get_elem?-bound [] j x e = cc
  get_elem?-bound (y ∷ xs) zero x e = omega arith
  get_elem?-bound (y ∷ xs) (suc j) x e = omega (arith, get_elem?-bound xs j x e)

  pub get_elem?-drop :
      (i : ℕ) (xs : List A) (x : A) (rest : List A) → drop i xs ≡ x ∷ rest → get_elem? xs i ≡ some x
  get_elem?-drop zero xs x rest e = rw e refl
  get_elem?-drop (suc i) [] x rest e = cc
  get_elem?-drop (suc i) (y ∷ xs) x rest e = get_elem?-drop i xs x rest e

  pub drop-suc :
      (i : ℕ) (xs : List A) (x : A) (rest : List A) → drop i xs ≡ x ∷ rest → drop (suc i) xs ≡ rest
  drop-suc zero xs x rest e = rw e refl
  drop-suc (suc i) [] x rest e = cc
  drop-suc (suc i) (y ∷ xs) x rest e = drop-suc i xs x rest e

  pub length-take : (n : ℕ) (xs : List A) → n ≤ length xs → length (take n xs) ≡ n
  length-take zero xs h = refl
  length-take (suc n) [] h = absurd (omega arith)
  length-take (suc n) (x ∷ xs) h = ap suc (length-take n xs (omega arith))

-- A predicate at every element.
module _ {ℓ κ} {A : Type ℓ} (P : A → Type κ) where
  abbrev pub All : List A → Type κ
  All [] = Unit
  All (x ∷ xs) = P x × All xs

  pub All-append : (xs ys : List A) → All xs → All ys → All (xs ++ ys)
  All-append [] ys _ hy = hy
  All-append (x ∷ xs) ys (px, hx) hy = (px, All-append xs ys hx hy)

  pub All-take : (n : ℕ) (xs : List A) → All xs → All (take n xs)
  All-take zero xs h = tt
  All-take (suc n) [] h = tt
  All-take (suc n) (x ∷ xs) (px, h) = (px, All-take n xs h)

  pub All-drop : (n : ℕ) (xs : List A) → All xs → All (drop n xs)
  All-drop zero xs h = h
  All-drop (suc n) [] h = tt
  All-drop (suc n) (x ∷ xs) (px, h) = All-drop n xs h

  pub All-get_elem? : (xs : List A) (i : ℕ) (x : A) → All xs → get_elem? xs i ≡ some x → P x
  All-get_elem? [] i x h e = absurd (none-ne-some x e)
  All-get_elem? (y ∷ xs) zero x (py, h) e = subst P (some-injective y x e) py
  All-get_elem? (y ∷ xs) (suc i) x (py, h) e = All-get_elem? xs i x h e
