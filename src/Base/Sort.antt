-- ===== src/Base/Sort.antt =====
-- `sort.Slice` by a key, the largest first. Go leaves the order of equal keys open; this sort keeps
-- the order in which they stood.
use Prim.Native.Nat.{ℕ, suc, ◌≤◌}
use mathlib.Core.Path.{◌≡◌, refl}
use mathlib.Core.Logic.{◌⊎◌, inl, inr}
use mathlib.Core.Bool.{Bool}
use mathlib.Core.List.{List, [], ◌∷◌, ◌++◌}
use native.Mathlib.Omega.{arith}
use native_ops.Base.Tests.{ltb, if◌then◌else◌}
use native_ops.Base.Lists.{All, length}

-- membership, as data
abbrev pub Member : {A : Type 0} → A → List A → Type 0
Member a [] = ⊥
Member a (x ∷ xs) = (x ≡ a) ⊎ Member a xs

abbrev pub count : {A : Type 0} → (A → Bool) → List A → ℕ
count p [] = 0
count p (x ∷ xs) = let rest = count p xs in if p x then suc rest else rest

module _ {A : Type 0} (key : A → ℕ) where
  unfoldable pub place : A → List A → List A
  place a [] = a ∷ []
  place a (b ∷ bs) = if ltb (key a) (key b) then b ∷ place a bs else a ∷ b ∷ bs

  unfoldable pub sort_desc : List A → List A
  sort_desc [] = []
  sort_desc (a ∷ xs) = place a (sort_desc xs)

  -- every element's key is at least the keys behind it
  abbrev pub IsDescending : List A → Type 0
  IsDescending [] = Unit
  IsDescending (a ∷ xs) = All (λ b. key b ≤ key a) xs × IsDescending xs

  All-place :
      (n : ℕ) (a : A) (xs : List A)
      → key a ≤ n
      → All (λ b. key b ≤ n) xs
      → All (λ b. key b ≤ n) (place a xs)
  unfolding place
  All-place n a [] h t = (h, tt)
  All-place n a (b ∷ bs) h t = ground (arith, All-place n a bs)

  All-weaken : (m n : ℕ) (xs : List A) → m ≤ n → All (λ b. key b ≤ m) xs → All (λ b. key b ≤ n) xs
  All-weaken m n [] h t = tt
  All-weaken m n (a ∷ xs) h t = (omega arith, All-weaken m n xs h t.1)

  place-IsDescending : (a : A) (xs : List A) → IsDescending xs → IsDescending (place a xs)
  unfolding place
  place-IsDescending a [] d = (tt, tt)
  place-IsDescending a (b ∷ bs) d =
      ground (arith, place-IsDescending a bs, All-place (key b) a bs, All-weaken (key b) (key a) bs)

  pub sort_desc-IsDescending : (xs : List A) → IsDescending (sort_desc xs)
  unfolding sort_desc
  sort_desc-IsDescending [] = tt
  sort_desc-IsDescending (a ∷ xs) = place-IsDescending a (sort_desc xs) (sort_desc-IsDescending xs)

  Member-place : (x a : A) (xs : List A) → Member x (place a xs) → (a ≡ x) ⊎ Member x xs
  unfolding place
  Member-place x a [] h = h
  Member-place x a (b ∷ bs) h = ground (arith, Member-place x a bs)

  place-Member : (x a : A) (xs : List A) → (a ≡ x) ⊎ Member x xs → Member x (place a xs)
  unfolding place
  place-Member x a [] h = h
  place-Member x a (b ∷ bs) h = ground (arith, place-Member x a bs)

  pub Member-sort_desc : (x : A) (xs : List A) → Member x (sort_desc xs) → Member x xs
  unfolding sort_desc
  Member-sort_desc x [] h = h
  Member-sort_desc x (a ∷ xs) h =
      ground (arith, Member-place x a (sort_desc xs), Member-sort_desc x xs)

  pub sort_desc-Member : (x : A) (xs : List A) → Member x xs → Member x (sort_desc xs)
  unfolding sort_desc
  sort_desc-Member x [] h = h
  sort_desc-Member x (a ∷ xs) h =
      ground (arith, place-Member x a (sort_desc xs), sort_desc-Member x xs)

  count-place : (p : A → Bool) (a : A) (xs : List A) → count p (place a xs) ≡ count p (a ∷ xs)
  unfolding place
  count-place p a [] = refl
  count-place p a (b ∷ bs) = ground (arith, count-place p a bs)

  -- sorting changes no count
  pub count-sort_desc : (p : A → Bool) (xs : List A) → count p (sort_desc xs) ≡ count p xs
  unfolding sort_desc
  count-sort_desc p [] = refl
  count-sort_desc p (a ∷ xs) = ground (arith, count-place p a (sort_desc xs), count-sort_desc p xs)

  -- what stands before an element of a sorted list, and behind it
  pub IsDescending-split :
      (a : A) (post pre : List A)
      → IsDescending (pre ++ a ∷ post)
      → All (λ b. key a ≤ key b) pre × All (λ b. key b ≤ key a) post
  IsDescending-split a post [] d = (tt, d.0)
  IsDescending-split a post (x ∷ pre) d =
      let (newer, older) = IsDescending-split a post pre d.1 in
      ((first_le (key x) pre d.0, newer), older)
    where
      first_le : (n : ℕ) (pre : List A) → All (λ b. key b ≤ n) (pre ++ a ∷ post) → key a ≤ n
      first_le n [] t = t.0
      first_le n (y ∷ pre) t = first_le n pre t.1

-- `sort.SliceStable` by a key, the smallest first
module _ {A : Type 0} (key : A → ℕ) where
  unfoldable pub place_asc : A → List A → List A
  place_asc a [] = a ∷ []
  place_asc a (b ∷ bs) = if ltb (key b) (key a) then b ∷ place_asc a bs else a ∷ b ∷ bs

  unfoldable pub sort_asc : List A → List A
  sort_asc [] = []
  sort_asc (a ∷ xs) = place_asc a (sort_asc xs)

  place_asc-Member : (a x : A) (xs : List A) → Member x (a ∷ xs) → Member x (place_asc a xs)
  unfolding place_asc
  place_asc-Member a x [] h = h
  place_asc-Member a x (b ∷ bs) h = ground (arith, place_asc-Member a x bs)

  pub sort_asc-Member : (x : A) (xs : List A) → Member x xs → Member x (sort_asc xs)
  unfolding sort_asc
  sort_asc-Member x [] h = h
  sort_asc-Member x (a ∷ xs) (inl e) = place_asc-Member a x (sort_asc xs) (inl e)
  sort_asc-Member x (a ∷ xs) (inr h) =
      place_asc-Member a x (sort_asc xs) (inr (sort_asc-Member x xs h))

  place_asc-length : (a : A) (xs : List A) → length (place_asc a xs) ≡ suc (length xs)
  unfolding place_asc
  place_asc-length a [] = refl
  place_asc-length a (b ∷ bs) = ground (arith, place_asc-length a bs)

  pub sort_asc-length : (xs : List A) → length (sort_asc xs) ≡ length xs
  unfolding sort_asc
  sort_asc-length [] = refl
  sort_asc-length (a ∷ xs) = omega (arith, place_asc-length a (sort_asc xs), sort_asc-length xs)
