-- ===== src/Base/Lists.antt =====
-- Lists measured by native numbers, and lists of numbers with a Boolean membership test.
use Prim.Native.Nat.{ℕ, zero, suc, ◌+◌, ◌≤◌}
use mathlib.Core.Path.{◌≡◌, refl}
use mathlib.Core.Bool.{Bool, true, false, ◌||◌}
use mathlib.Core.List.{List, [], ◌∷◌, ◌++◌}
use native.Mathlib.Omega.{arith}
use native_ops.Base.Tests.{◌==◌, if◌then◌else◌}

module _ {ℓ} {A : Type ℓ} where
  abbrev pub length : List A → ℕ
  length [] = 0
  length (x ∷ xs) = suc (length xs)

  abbrev pub take : ℕ → List A → List A
  take zero xs = []
  take (suc n) [] = []
  take (suc n) (x ∷ xs) = x ∷ take n xs

  abbrev pub drop : ℕ → List A → List A
  drop zero xs = xs
  drop (suc n) [] = []
  drop (suc n) (x ∷ xs) = drop n xs

  pub length-append : (xs ys : List A) → length (xs ++ ys) ≡ length xs + length ys
  length-append [] ys = omega arith
  length-append (x ∷ xs) ys = omega (arith, length-append xs ys)

  pub take-append-drop : (n : ℕ) (xs : List A) → take n xs ++ drop n xs ≡ xs
  take-append-drop zero xs = refl
  take-append-drop (suc n) [] = refl
  take-append-drop (suc n) (x ∷ xs) = rw (take-append-drop n xs)

abbrev pub All {ℓ κ} : {A : Type ℓ} → (A → Type κ) → List A → Type κ
All P [] = Unit
All P (x ∷ xs) = P x × All P xs

abbrev pub contains : ℕ → List ℕ → Bool
contains n [] = false
contains n (x ∷ xs) = n == x || contains n xs

-- The list without the first occurrence of a number.
abbrev pub without : ℕ → List ℕ → List ℕ
without n [] = []
without n (x ∷ xs) = if n == x then xs else x ∷ without n xs

abbrev pub Distinct : List ℕ → Type 0
Distinct [] = Unit
Distinct (x ∷ xs) = (contains x xs ≡ false) × Distinct xs

pub length-without-le : (n : ℕ) (xs : List ℕ) → length (without n xs) ≤ length xs
length-without-le n [] = omega arith
length-without-le n (x ∷ xs) = ground (arith, length-without-le n xs)

pub length-without :
    (n : ℕ) (xs : List ℕ) → contains n xs ≡ true → length (without n xs) + 1 ≡ length xs
length-without n (x ∷ xs) h = ground (arith, length-without n xs)
length-without n [] h = ground arith

pub contains-without :
    (m n : ℕ) (xs : List ℕ) → contains m (without n xs) ≡ true → contains m xs ≡ true
contains-without m n [] h = h
contains-without m n (x ∷ xs) h = ground (arith, contains-without m n xs)

pub contains-without_self : (n : ℕ) (xs : List ℕ) → Distinct xs → contains n (without n xs) ≡ false
contains-without_self n [] d = refl
contains-without_self n (x ∷ xs) d = ground (arith, contains-without_self n xs)

pub contains-append :
    (n : ℕ) (xs ys : List ℕ) → contains n (xs ++ ys) ≡ (contains n xs || contains n ys)
contains-append n [] ys = refl
contains-append n (x ∷ xs) ys = ground (arith, contains-append n xs ys)

pub Distinct-without : (n : ℕ) (xs : List ℕ) → Distinct xs → Distinct (without n xs)
Distinct-without n [] d = tt
Distinct-without n (x ∷ xs) d = ground (arith, Distinct-without n xs, contains-without x n xs)

pub Distinct-append :
    (n : ℕ) (xs : List ℕ) → Distinct xs → contains n xs ≡ false → Distinct (xs ++ n ∷ [])
Distinct-append n [] d h = (refl, tt)
Distinct-append n (x ∷ xs) d h = ground (arith, Distinct-append n xs, contains-append x xs (n ∷ []))
