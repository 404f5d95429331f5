-- ===== src/Backups.antt =====
-- Which backups retention deletes (selectPrune and parseObjectTime of pkg/backup/manager.go).
-- A time stands for its UTC digits, YYYYMMDDhhmmss as one number, which orders times as they are; `cutoff`
-- is what the calendar makes of a number of days before now. Equal times stay in the order of the listing
-- (sort.Slice leaves it open).
pub mod Times
pub mod Retention
pub mod Schedule
pub mod Slots
pub mod Ticks
pub mod Clock
pub mod Prune
pub mod Gone
mod Tests
use native_ops.Base.{
  ℕ, suc, ◌+◌, ◌/◌, Bool, true, false, not, ◌&&◌, ◌||◌, Option, none, some, List, [], ◌∷◌, ◌++◌,
  ltb, leb, length, take, contains, if◌then◌else◌,
}
use native_ops.Base.Bytes.{same}
use native_ops.Base.Sort.{sort_desc}
use native_ops.Backups.Times.{parse_object_time}

pub record Item : Type 0 where
  pub key : List ℕ
  pub ts : ℕ

-- the keys that have a time
unfoldable pub items_of : List (List ℕ) → List Item
unfolding parse_object_time
items_of [] = []
items_of (k ∷ ks) =
    let rest = items_of ks in
    elim (parse_object_time k) [ none ↦ rest | some t ↦ record { key = k; ts = t } ∷ rest ]

-- `it.ts.Format("2006-01")`
abbrev pub month : Item → ℕ
month it = it.ts / 100000000

unfoldable pub after : ℕ → List Item → List Item
after cutoff [] = []
after cutoff (it ∷ its) =
    let rest = after cutoff its in if ltb cutoff it.ts then it ∷ rest else rest

-- the loop over the months, with those that were claimed
unfoldable pub one_a_month : ℕ → List ℕ → List Item → List Item
one_a_month monthly months [] = []
one_a_month monthly months (it ∷ its) =
    let same_month = one_a_month monthly months its in
    let next = one_a_month monthly (month it ∷ months) its in
    if contains (month it) months
    then same_month
    else it ∷ (if leb monthly (suc (length months)) then [] else next)

-- the keys of the map `keep`
unfoldable pub keep : List Item → ℕ → ℕ → ℕ → (ℕ → ℕ) → List Item
unfolding after one_a_month
keep its daily monthly days cutoff =
    take 1 its
    ++ ((if ltb 0 days then after (cutoff days) its else [])
        ++ (take daily its ++ (if ltb 0 monthly then one_a_month monthly [] its else [])))

abbrev pub has_key : List ℕ → List Item → Bool
has_key k [] = false
has_key k (it ∷ its) = same it.key k || has_key k its

unfoldable pub dropped : List Item → List Item → List (List ℕ)
dropped kept [] = []
dropped kept (it ∷ its) =
    let rest = dropped kept its in if has_key it.key kept then rest else it.key ∷ rest

-- `selectPrune`
unfoldable pub select_prune : List (List ℕ) → ℕ → ℕ → ℕ → (ℕ → ℕ) → List (List ℕ)
unfolding items_of keep dropped
select_prune keys daily monthly days cutoff =
    let its = sort_desc (λ it. it.ts) (items_of keys) in
    dropped (keep its daily monthly days cutoff) its
