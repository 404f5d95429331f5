-- ===== src/Backups/Gone.antt =====
-- Which objects are gone after old backups were deleted (Prune of pkg/backup/manager.go).
use native_ops.Base.{
  ℕ, ◌≡◌, refl, ◌∙◌, arith, Bool, true, false, not, ◌&&◌, ◌||◌, none, List, [], ◌∷◌, Bool-cases,
  Option-cases, inl, inr,
}
use native_ops.Base.Bytes.{same, same_refl, same_eq}
use native_ops.Base.Sort.{place, sort_desc}
use native_ops.Backups.{Item, select_prune, items_of, keep, has_key}
use native_ops.Backups.Times.{parse_object_time}
use native_ops.Backups.Retention.{listed, listed-dropped_absent}
use native_ops.Backups.Prune.{Policy, is_candidate, candidates, removed, delete_all, prune}

listed-removed :
    (k j : List ℕ) (s : List (List ℕ)) → listed k (removed j s) ≡ (listed k s && not (same j k))
listed-removed k j [] = refl
listed-removed k j (i ∷ s) = ground (
  arith,
  listed-removed k j s,
  same_eq i j,
  same_eq i k,
  same_eq j k,
  same_refl k,
  same_refl j,
  same_refl i,
)

-- a deletion that goes well takes exactly its keys away; one that fails takes no other
delete_all-listed :
    (deleted : List ℕ → Bool) (k : List ℕ) (ks s : List (List ℕ))
    → ((delete_all deleted ks s).1 ≡ true
        → listed k (delete_all deleted ks s).0 ≡ (listed k s && not (listed k ks)))
      × (listed k ks ≡ false → listed k (delete_all deleted ks s).0 ≡ listed k s)
unfolding delete_all
delete_all-listed deleted k [] s = (λ _. ground arith, λ _. refl)
delete_all-listed deleted k (j ∷ ks) s =
    let ih = delete_all-listed deleted k ks (removed j s) in
    let r = listed-removed k j s in (λ e. ground (arith, ih, r), λ e. ground (arith, ih, r))

has_key-place :
    (k : List ℕ) (a : Item) (xs : List Item)
    → has_key k (place (λ b. b.ts) a xs) ≡ (same a.key k || has_key k xs)
unfolding place
has_key-place k a [] = refl
has_key-place k a (b ∷ bs) = ground (arith, has_key-place k a bs)

has_key-sort_desc :
    (k : List ℕ) (xs : List Item) → has_key k (sort_desc (λ b. b.ts) xs) ≡ has_key k xs
unfolding sort_desc
has_key-sort_desc k [] = refl
has_key-sort_desc k (a ∷ xs) =
    ground (arith, has_key-place k a (sort_desc (λ b. b.ts) xs), has_key-sort_desc k xs)

has_key-items_of :
    (k : List ℕ) (ks : List (List ℕ)) → listed k ks ≡ false → has_key k (items_of ks) ≡ false
unfolding items_of
has_key-items_of k [] h = refl
has_key-items_of k (j ∷ ks) h = elim (Option-cases (parse_object_time j)) [
  | inl e ↦ ground (arith, has_key-items_of k ks)
  | inr (t, e) ↦ ground (arith, has_key-items_of k ks)
]

listed-candidates :
    (prefix k : List ℕ) (s : List (List ℕ))
    → is_candidate prefix k ≡ false
    → listed k (candidates prefix s) ≡ false
unfolding candidates
listed-candidates prefix k [] h = refl
listed-candidates prefix k (j ∷ s) h = elim (Bool-cases (is_candidate prefix j)) [
  | inr out ↦ rw out (listed-candidates prefix k s h)
  | inl good ↦ elim (Bool-cases (same j k)) [
    | inr other ↦ rw (good, other) (listed-candidates prefix k s h)
    | inl is ↦ absurd (let e = same_eq j k is in let g = rw e at good in ground arith)
  ]
]

-- what is no candidate is not selected
not_selected :
    (prefix k : List ℕ) (s : List (List ℕ)) (daily monthly days : ℕ) (cutoff : ℕ → ℕ)
    → is_candidate prefix k ≡ false
    → listed k (select_prune (candidates prefix s) daily monthly days cutoff) ≡ false
unfolding select_prune
not_selected prefix k s daily monthly days cutoff h =
    let its = items_of (candidates prefix s) in
    listed-dropped_absent k (keep (sort_desc (λ b. b.ts) its) daily monthly days cutoff)
      (sort_desc (λ b. b.ts) its)
      (has_key-sort_desc k its
        ∙ has_key-items_of k (candidates prefix s) (listed-candidates prefix k s h))

-- An object that is gone from the store was a backup of this host and this volume, and one that retention
-- selected, whether the pruning went well or failed on the way; if it went well, exactly the objects that it
-- names are gone.
pub prune_gone :
    (cutoff : ℕ → ℕ) (p : Policy) (has_store has_host : Bool) (prefix : List ℕ) (listing : Bool)
    (deleted : List ℕ → Bool) (store : List (List ℕ)) (k : List ℕ)
    → let result = prune cutoff p has_store has_host prefix listing deleted store in
      (listed k store ≡ true
        → listed k result.0 ≡ false
        → (is_candidate prefix k ≡ true)
          × (listed k (
                select_prune
                  (candidates prefix store)
                  p.retain_daily
                  p.retain_monthly
                  p.retain_days
                  cutoff)
              ≡ true))
      × (result.1.0 ≡ none → listed k result.0 ≡ (listed k store && not (listed k result.1.1)))
unfolding prune
prune_gone cutoff p has_store has_host prefix listing deleted store k =
    let del =
      select_prune (candidates prefix store) p.retain_daily p.retain_monthly p.retain_days cutoff in
    let d = delete_all-listed deleted k del store in
    let n = not_selected prefix k store p.retain_daily p.retain_monthly p.retain_days cutoff in
    let was_selected : listed k store ≡ true
        → listed k (prune cutoff p has_store has_host prefix listing deleted store).0 ≡ false
        → listed k del ≡ true =
      λ here gone. ground (arith, d, here, gone) in
    (
      λ here gone. (let y = was_selected here gone in ground (arith, y, n), was_selected here gone),
      λ e. ground (arith, d),
    )
