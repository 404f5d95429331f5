-- ===== src/Base/Prune/Exact.antt =====
-- What pruning does to each record.
use Prim.Native.Nat.{ℕ, ◌<◌}
use Prim.Native.String.{String}
use mathlib.Core.Path.{◌≡◌, ap, sym, ◌∙◌}
use mathlib.Core.Logic.{◌⊎◌, inl, inr}
use mathlib.Core.Bool.{Bool, true, false}
use mathlib.Core.Option.{none, some}
use mathlib.Core.List.{List}
use native.Mathlib.Omega.{arith}
use native_ops.Base.Tests.{leb, Bool-cases, Option-cases}
use native_ops.Base.Lists.{length, drop}
use native_ops.Base.Dict.{Dict, lookup, Unique, values}
use native_ops.Base.Sort.{
  Member, count, sort_desc, sort_desc-IsDescending, Member-sort_desc, sort_desc-Member,
  count-sort_desc,
}
use native_ops.Base.Prune.Dropping.{
  length-values, Member-lookup, drop_old, prune_map, Keyed, lookup-Keyed, lookup-Member,
  drop_old-Unique, drop_old-Keyed, drop_old-gone, drop_old-kept, drop_old-none, drop_old-dropped,
}
use native_ops.Base.Prune.Newest.{
  behind, at_least, newer_than, Member-drop, Member-split, in_front, not_newer_than_itself,
}

module _ {V : Type 0} (id : V → String) (protects : V → Bool) (time : V → ℕ) (keep : ℕ) where
  pub prune_map-Unique : (m : Dict V) → Unique m → Unique (prune_map id protects time keep m)
  unfolding prune_map
  prune_map-Unique m u =
      ground (arith, drop_old-Unique id protects (drop keep (sort_desc time (values m))) m u)

  pub prune_map-Keyed : (m : Dict V) → Keyed id m → Keyed id (prune_map id protects time keep m)
  unfolding prune_map
  prune_map-Keyed m u =
      ground (arith, drop_old-Keyed id protects (drop keep (sort_desc time (values m))) m u)

  pub prune_map-sub :
      (k : String) (v : V) (m : Dict V)
      → lookup k (prune_map id protects time keep m) ≡ some v
      → lookup k m ≡ some v
  unfolding prune_map
  prune_map-sub k v m h = elim (Bool-cases (leb (length m) keep)) [
    | inl few ↦ ground arith
    | inr many ↦
        drop_old-kept id protects (drop keep (sort_desc time (values m))) m k v (ground arith)
  ]

  -- Pruning changes no record: each entry is kept as it is, or gone.
  pub prune_map-lookup :
      (k : String) (m : Dict V)
      → (lookup k (prune_map id protects time keep m) ≡ none)
        ⊎ (lookup k (prune_map id protects time keep m) ≡ lookup k m)
  prune_map-lookup k m = elim (Option-cases (lookup k (prune_map id protects time keep m))) [
    | inl gone ↦ inl gone
    | inr (v, kept) ↦ inr (kept ∙ sym (prune_map-sub k v m kept))
  ]

  pub prune_map-none :
      (k : String) (m : Dict V)
      → lookup k m ≡ none
      → lookup k (prune_map id protects time keep m) ≡ none
  unfolding prune_map
  prune_map-none k m h =
      ground (arith, drop_old-none id protects (drop keep (sort_desc time (values m))) m k h)

  -- What is pruned away was not protected, and more than `keep` records are at least as new.
  pub prune_map-gone :
      (k : String) (v : V) (m : Dict V)
      → Unique m
      → Keyed id m
      → lookup k m ≡ some v
      → lookup k (prune_map id protects time keep m) ≡ none
      → (protects v ≡ false) × (keep < count (at_least time v) (values m))
  unfolding prune_map
  prune_map-gone k v m u w here gone = elim (Bool-cases (leb (length m) keep)) [
    | inl few ↦ ground arith
    | inr many ↦ elim (drop_old-gone id protects (drop keep sorted) m k (ground arith)) [
      | inl absent ↦ ground arith
      | inr (r, t, e, p) ↦ same r t e p
    ]
  ]
    where
      sorted : List V
      sorted = sort_desc time (values m)

      same :
          (r : V)
          → Member r (drop keep sorted)
          → id r ≡ k
          → protects r ≡ false
          → (protects v ≡ false) × (keep < count (at_least time v) (values m))
      same r t e p =
          let stored =
            Member-lookup id r m u w
              (Member-sort_desc time r (values m) (Member-drop time keep r sorted t)) in
          let eq : r ≡ v = cc (stored, ap (λ j. lookup j m) e, here) in
          rw (← eq) (
            p,
            rw (← count-sort_desc time (at_least time r) (values m))
                (behind time keep r sorted (sort_desc-IsDescending time (values m)) t),
          )

  -- What stays is protected, or fewer than `keep` records are newer.
  pub prune_map-stays :
      (k : String) (v : V) (m : Dict V)
      → Keyed id m
      → lookup k (prune_map id protects time keep m) ≡ some v
      → (protects v ≡ true) ⊎ (count (newer_than time v) (values m) < keep)
  unfolding prune_map
  prune_map-stays k v m w stays = elim (Bool-cases (leb (length m) keep)) [
    | inl few ↦
        let member = lookup-Member id k v m (ground arith) in
        inr (ground (arith, not_newer_than_itself time v (values m) member, length-values id m))
    | inr many ↦ elim (Bool-cases (protects v)) [
      | inl p ↦ inl p
      | inr p ↦
          elim (Member-split time keep v sorted
            (sort_desc-Member time v (values m) (lookup-Member id k v m (here many)))) [
              | inl front ↦ inr (
                  rw (← count-sort_desc time (newer_than time v) (values m))
                    (in_front time keep v sorted (sort_desc-IsDescending time (values m)) front))
              | inr back ↦
                  let dropped = drop_old-dropped id protects (drop keep sorted) m v back p in
                  let gone : lookup k (drop_old id protects (drop keep sorted) m) ≡ none =
                    rw (← lookup-Keyed id k v m w (here many)) dropped in
                  absurd (ground arith)
            ]
    ]
  ]
    where
      sorted : List V
      sorted = sort_desc time (values m)

      here : leb (length m) keep ≡ false → lookup k m ≡ some v
      here many = drop_old-kept id protects (drop keep sorted) m k v (ground arith)
