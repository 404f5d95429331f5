-- ===== src/Base/Prune/Dropping.antt =====
-- Dropping old records from a map, and what that leaves.
use Prim.Native.Nat.{ℕ, suc}
use Prim.Native.String.{String}
use mathlib.Core.Path.{◌≡◌, refl, ap}
use mathlib.Core.Logic.{◌⊎◌, inl, inr}
use mathlib.Core.Bool.{Bool, false}
use mathlib.Core.Option.{none, some}
use mathlib.Core.List.{List, [], ◌∷◌}
use native.Mathlib.Omega.{arith}
use text.Mathlib.Text.{◌==◌ as str_eq}
use text.Mathlib.TextEquality.{eq_iff}
use native_ops.Base.Tests.{leb, if◌then◌else◌, Bool-cases}
use native_ops.Base.Lists.{length, drop}
use native_ops.Base.Dict.{Dict, lookup, insert, erase, lookup-erase, erase-Unique, Unique, values}
use native_ops.Base.Sort.{Member, sort_desc}

module _ {V : Type 0} (id : V → String) (protects : V → Bool) where
  -- the loop over `all[keep:]`
  unfoldable pub drop_old : List V → Dict V → Dict V
  drop_old [] m = m
  drop_old (r ∷ rs) m = drop_old rs (if protects r then m else erase (id r) m)

module _ {V : Type 0} (id : V → String) (protects : V → Bool) (time : V → ℕ) (keep : ℕ) where
  unfoldable pub prune_map : Dict V → Dict V
  prune_map m =
      if leb (length m) keep
      then m
      else drop_old id protects (drop keep (sort_desc time (values m))) m

module _ {V : Type 0} (id : V → String) where
  -- every record stands under its own id
  abbrev pub Keyed : Dict V → Type 0
  Keyed [] = Unit
  Keyed ((k, v) ∷ m) = (id v ≡ k) × Keyed m

  pub lookup-Keyed : (k : String) (v : V) (m : Dict V) → Keyed m → lookup k m ≡ some v → id v ≡ k
  unfolding lookup
  lookup-Keyed k v [] w h = ground arith
  lookup-Keyed k v ((j, x) ∷ m) w h = ground (arith, eq_iff j k, lookup-Keyed k v m)

  pub lookup-Member : (k : String) (v : V) (m : Dict V) → lookup k m ≡ some v → Member v (values m)
  unfolding lookup
  lookup-Member k v [] h = ground arith
  lookup-Member k v ((j, x) ∷ m) h = ground (arith, eq_iff j k, lookup-Member k v m)

  pub Member-lookup :
      (v : V) (m : Dict V) → Unique m → Keyed m → Member v (values m) → lookup (id v) m ≡ some v
  unfolding lookup
  Member-lookup v [] u w h = absurd h
  Member-lookup v ((j, x) ∷ m) u w h = ground (arith, eq_iff j (id v), Member-lookup v m)

  pub insert-Keyed : (k : String) (v : V) (m : Dict V) → id v ≡ k → Keyed m → Keyed (insert k v m)
  unfolding insert
  insert-Keyed k v [] e w = (e, tt)
  insert-Keyed k v ((j, x) ∷ m) e w = ground (arith, insert-Keyed k v m e)

  erase-Keyed : (k : String) (m : Dict V) → Keyed m → Keyed (erase k m)
  unfolding erase
  erase-Keyed k [] w = tt
  erase-Keyed k ((j, x) ∷ m) w = ground (arith, erase-Keyed k m)

  pub length-values : (m : Dict V) → length (values m) ≡ length m
  length-values [] = refl
  length-values ((j, x) ∷ m) = ap suc (length-values m)

  module _ (protects : V → Bool) where
    pub drop_old-Unique : (rs : List V) (m : Dict V) → Unique m → Unique (drop_old id protects rs m)
    unfolding drop_old
    drop_old-Unique [] m u = u
    drop_old-Unique (r ∷ rs) m u = drop_old-Unique rs _ (ground (arith, erase-Unique (id r) m))

    pub drop_old-Keyed : (rs : List V) (m : Dict V) → Keyed m → Keyed (drop_old id protects rs m)
    unfolding drop_old
    drop_old-Keyed [] m u = u
    drop_old-Keyed (r ∷ rs) m u = drop_old-Keyed rs _ (ground (arith, erase-Keyed (id r) m))

    -- an entry that is gone was behind the newest, and was not protected
    pub drop_old-gone :
        (rs : List V) (m : Dict V) (k : String)
        → lookup k (drop_old id protects rs m) ≡ none
        → (lookup k m ≡ none) ⊎ ((r : V) × Member r rs × (id r ≡ k) × (protects r ≡ false))
    unfolding drop_old
    drop_old-gone [] m k h = inl h
    drop_old-gone (r ∷ rs) m k h =
        split (drop_old-gone rs (if protects r then m else erase (id r) m) k h)
      where
        split :
            (lookup k (if protects r then m else erase (id r) m) ≡ none)
              ⊎ ((s : V) × Member s rs × (id s ≡ k) × (protects s ≡ false))
            → (lookup k m ≡ none)
              ⊎ ((s : V) × Member s (r ∷ rs) × (id s ≡ k) × (protects s ≡ false))
        split (inr (s, t, e, p)) = inr (s, inr t, e, p)
        split (inl a) = elim (Bool-cases (protects r)) [
          | inl p ↦ inl (ground arith)
          | inr p ↦ elim (Bool-cases (str_eq (id r) k)) [
            | inl e ↦ inr (r, inl refl, (eq_iff (id r) k).0 e, p)
            | inr n ↦ inl (ground (arith, lookup-erase (id r) k m))
          ]
        ]

    -- an entry that stays was there, and nothing unprotected of its id was dropped
    pub drop_old-kept :
        (rs : List V) (m : Dict V) (k : String) (v : V)
        → lookup k (drop_old id protects rs m) ≡ some v
        → (lookup k m ≡ some v)
    unfolding drop_old
    drop_old-kept [] m k v h = h
    drop_old-kept (r ∷ rs) m k v h =
        let ih = drop_old-kept rs (if protects r then m else erase (id r) m) k v h in
        ground (arith, lookup-erase (id r) k m)

    pub drop_old-none :
        (rs : List V) (m : Dict V) (k : String)
        → lookup k m ≡ none
        → lookup k (drop_old id protects rs m) ≡ none
    unfolding drop_old
    drop_old-none [] m k h = h
    drop_old-none (r ∷ rs) m k h =
        drop_old-none rs (if protects r then m else erase (id r) m) k
          (ground (arith, lookup-erase (id r) k m))

    -- what two maps hold for a key stays equal when the same records are dropped from both
    pub drop_old-lookup :
        (rs : List V) (m n : Dict V) (k : String)
        → lookup k m ≡ lookup k n
        → lookup k (drop_old id protects rs m) ≡ lookup k (drop_old id protects rs n)
    unfolding drop_old
    drop_old-lookup [] m n k h = h
    drop_old-lookup (r ∷ rs) m n k h =
        drop_old-lookup rs (if protects r then m else erase (id r) m)
          (if protects r then n else erase (id r) n) k
          (ground (arith, lookup-erase (id r) k m, lookup-erase (id r) k n))

    pub drop_old-dropped :
        (rs : List V) (m : Dict V) (v : V)
        → Member v rs
        → protects v ≡ false
        → lookup (id v) (drop_old id protects rs m) ≡ none
    unfolding drop_old
    drop_old-dropped [] m v h p = absurd h
    drop_old-dropped (r ∷ rs) m v (inl e) p =
        drop_old-none rs (if protects r then m else erase (id r) m) (id v) (
          ground
            (arith, lookup-erase (id r) (id v) m, eq_iff (id r) (id v), ap id e, ap protects e))
    drop_old-dropped (r ∷ rs) m v (inr h) p =
        drop_old-dropped rs (if protects r then m else erase (id r) m) v h p
