-- ===== src/Backups/Prune.antt =====
-- Deleting old backups from the object store (Prune and PruneAll of pkg/backup/manager.go).
-- The store is the list of its keys. `listed` is whether it could be listed, `deleted` says of a key whether
-- it can be deleted.
use native_ops.Base.{
  ℕ, ◌-◌, codes, Bool, true, false, not, ◌&&◌, Option, none, some, List, [], ◌∷◌, leb, ◌==◌, length,
  drop, contains, if◌then◌else◌,
}
use native_ops.Base.Bytes.{same}
use native_ops.Tokens.{starts_with, after}
use native_ops.Backups.{select_prune}

pub record Policy : Type 0 where
  pub retain_daily : ℕ
  pub retain_monthly : ℕ
  pub retain_days : ℕ

pub data PruneError : Type 0 where
  no_store no_host not_listed not_deleted : PruneError

abbrev pub ends_with : List ℕ → List ℕ → Bool
ends_with suffix s =
    leb (length suffix) (length s) && same (drop (length s - length suffix) s) suffix

-- a key of this host and volume, and nothing below it
abbrev pub is_candidate : List ℕ → List ℕ → Bool
is_candidate prefix key =
    starts_with prefix key
    && (not (contains b'/' (after (length prefix) key)) && ends_with (codes ".tar.gz") key)

unfoldable pub candidates : List ℕ → List (List ℕ) → List (List ℕ)
candidates prefix [] = []
candidates prefix (k ∷ ks) =
    let rest = candidates prefix ks in if is_candidate prefix k then k ∷ rest else rest

abbrev pub removed : List ℕ → List (List ℕ) → List (List ℕ)
removed k [] = []
removed k (j ∷ js) = let rest = removed k js in if same j k then rest else j ∷ rest

-- the loop that deletes: it ends at the first that cannot be deleted
unfoldable pub delete_all : (List ℕ → Bool) → List (List ℕ) → List (List ℕ) → List (List ℕ) × Bool
delete_all deleted [] store = (store, true)
delete_all deleted (k ∷ ks) store =
    let rest = delete_all deleted ks (removed k store) in if deleted k then rest else (store, false)

-- `Prune`: the store after it, and the keys that were deleted
unfoldable pub prune :
    (ℕ → ℕ)
    → Policy
    → Bool
    → Bool
    → List ℕ
    → Bool
    → (List ℕ → Bool)
    → List (List ℕ)
    → List (List ℕ) × (Option PruneError × List (List ℕ))
unfolding candidates select_prune delete_all
prune cutoff p has_store has_host prefix listing deleted store =
    if p.retain_daily == 0 && (p.retain_monthly == 0 && p.retain_days == 0)
    then (store, (none, []))
    else if not has_store
    then (store, (some no_store, []))
    else if not has_host
    then (store, (some no_host, []))
    else if not listing
    then (store, (some not_listed, []))
    else (let del =
          select_prune (candidates prefix store) p.retain_daily p.retain_monthly p.retain_days
            cutoff in
        let (store1, all_gone) = delete_all deleted del store in
        if all_gone then (store1, (none, del)) else (store1, (some not_deleted, [])))
