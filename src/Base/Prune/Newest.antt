-- ===== src/Base/Prune/Newest.antt =====
-- How many records are newer than one, by its place in the sorted list.
use Prim.Native.Nat.{ℕ, zero, suc, ◌≤◌, ◌<◌}
use mathlib.Core.Path.{◌≡◌, refl, ap, subst}
use mathlib.Core.Logic.{◌⊎◌, inl, inr}
use mathlib.Core.Bool.{Bool}
use mathlib.Core.List.{List, [], ◌∷◌}
use native.Mathlib.Omega.{arith}
use native_ops.Base.Tests.{ltb, leb}
use native_ops.Base.Lists.{All, length, take, drop}
use native_ops.Base.Sort.{Member, count, IsDescending}

module _ {V : Type 0} (time : V → ℕ) where
  abbrev pub at_least : V → V → Bool
  at_least v r = leb (time v) (time r)

  abbrev pub newer_than : V → V → Bool
  newer_than v r = ltb (time v) (time r)

  pub Member-drop : (n : ℕ) (v : V) (xs : List V) → Member v (drop n xs) → Member v xs
  Member-drop zero v xs h = h
  Member-drop (suc n) v [] h = h
  Member-drop (suc n) v (x ∷ xs) h = inr (Member-drop n v xs h)

  pub Member-split :
      (n : ℕ) (v : V) (xs : List V) → Member v xs → Member v (take n xs) ⊎ Member v (drop n xs)
  Member-split zero v xs h = inr h
  Member-split (suc n) v [] h = absurd h
  Member-split (suc n) v (x ∷ xs) h = ground (arith, Member-split n v xs)

  All-Member : (n : ℕ) (v : V) (xs : List V) → All (λ b. time b ≤ n) xs → Member v xs → time v ≤ n
  All-Member n v [] t h = absurd h
  All-Member n v (x ∷ xs) t (inl e) = rw (← ap time e) t.0
  All-Member n v (x ∷ xs) t (inr h) = All-Member n v xs t.1 h

  pub count-Member : (v : V) (xs : List V) → Member v xs → 0 < count (at_least v) xs
  count-Member v [] h = absurd h
  count-Member v (x ∷ xs) (inl e) = ground (arith, ap time e)
  count-Member v (x ∷ xs) (inr h) = ground (arith, count-Member v xs h)

  -- behind the first n of a descending list stand only elements that n others are at least as new as
  pub behind :
      (n : ℕ) (v : V) (xs : List V)
      → IsDescending time xs
      → Member v (drop n xs)
      → n < count (at_least v) xs
  behind zero v xs d h = count-Member v xs h
  behind (suc n) v [] d h = absurd h
  behind (suc n) v (x ∷ xs) d h =
      ground (arith, behind n v xs d.1 h, All-Member (time x) v xs d.0 (Member-drop n v xs h))

  pub none_newer :
      (v : V) (xs : List V) → All (λ b. time b ≤ time v) xs → count (newer_than v) xs ≡ 0
  none_newer v [] t = refl
  none_newer v (x ∷ xs) t = ground (arith, none_newer v xs)

  pub in_front :
      (n : ℕ) (v : V) (xs : List V)
      → IsDescending time xs
      → Member v (take n xs)
      → count (newer_than v) xs < n
  in_front zero v xs d h = absurd h
  in_front (suc n) v [] d h = absurd h
  in_front (suc n) v (x ∷ xs) d (inl e) =
      let older = subst (λ t. All (λ b. time b ≤ t) xs) (ap time e) d.0 in
      ground (arith, none_newer v xs older, ap time e)
  in_front (suc n) v (x ∷ xs) d (inr h) = ground (arith, in_front n v xs d.1 h)

  pub count-le : (p : V → Bool) (xs : List V) → count p xs ≤ length xs
  count-le p [] = omega arith
  count-le p (x ∷ xs) = ground (arith, count-le p xs)

  pub not_newer_than_itself :
      (v : V) (xs : List V) → Member v xs → count (newer_than v) xs < length xs
  not_newer_than_itself v [] h = absurd h
  not_newer_than_itself v (x ∷ xs) (inl e) = ground (arith, count-le (newer_than v) xs, ap time e)
  not_newer_than_itself v (x ∷ xs) (inr h) = ground (arith, not_newer_than_itself v xs h)
