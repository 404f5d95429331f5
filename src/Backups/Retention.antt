-- ===== src/Backups/Retention.antt =====
-- What retention keeps of a volume's backups (selectPrune of pkg/backup/manager.go).
use native_ops.Base.{
  ℕ, zero, suc, ◌≡◌, ◌≤◌, ◌<◌, refl, ◌∙◌, arith, Bool, true, false, not, ◌&&◌, ◌||◌, List, [], ◌∷◌,
  ◌++◌, ltb, leb, length, take, contains, All, if◌then◌else◌, Bool-cases, inl, inr,
}
use native_ops.Base.Bytes.{same, same_refl}
use native_ops.Base.Sort.{sort_desc, IsDescending, IsDescending-split, sort_desc-IsDescending}
use native_ops.Backups.{
  Item, items_of, month, after, one_a_month, keep, has_key, dropped, select_prune,
}

has_key-append :
    (k : List ℕ) (xs ys : List Item) → has_key k (xs ++ ys) ≡ (has_key k xs || has_key k ys)
has_key-append k [] ys = refl
has_key-append k (x ∷ xs) ys = ground (arith, has_key-append k xs ys)

-- what is not in a list is not in a part of it
has_key-take :
    (k : List ℕ) (n : ℕ) (xs : List Item) → has_key k xs ≡ false → has_key k (take n xs) ≡ false
has_key-take k zero xs h = refl
has_key-take k (suc n) [] h = refl
has_key-take k (suc n) (x ∷ xs) h = ground (arith, has_key-take k n xs)

has_key-after :
    (k : List ℕ) (t : ℕ) (xs : List Item) → has_key k xs ≡ false → has_key k (after t xs) ≡ false
unfolding after
has_key-after k t [] h = refl
has_key-after k t (x ∷ xs) h = ground (arith, has_key-after k t xs)

has_key-one_a_month :
    (k : List ℕ) (n : ℕ) (months : List ℕ) (xs : List Item)
    → has_key k xs ≡ false
    → has_key k (one_a_month n months xs) ≡ false
unfolding one_a_month
has_key-one_a_month k n months [] h = refl
has_key-one_a_month k n months (x ∷ xs) h =
    ground (arith, has_key-one_a_month k n months xs, has_key-one_a_month k n (month x ∷ months) xs)

-- the months of a list, each once, after those that were claimed before
abbrev pub months_of : List ℕ → List Item → List ℕ
months_of months [] = months
months_of months (x ∷ xs) =
    months_of (if contains (month x) months then months else month x ∷ months) xs

length-months_of : (months : List ℕ) (xs : List Item) → length months ≤ length (months_of months xs)
length-months_of months [] = omega arith
length-months_of months (x ∷ xs) =
    let ih = length-months_of (if contains (month x) months then months else month x ∷ months) xs in
    ground (arith, ih)

module _ (it : Item) (post : List Item) where
  take-at :
      (n : ℕ) (pre : List Item)
      → has_key it.key pre ≡ false
      → has_key it.key post ≡ false
      → has_key it.key (take n (pre ++ it ∷ post)) ≡ ltb (length pre) n
  take-at zero pre h p = ground arith
  take-at (suc n) [] h p = ground (arith, same_refl it.key)
  take-at (suc n) (x ∷ pre) h p = ground (arith, take-at n pre)

  after-at :
      (t : ℕ) (pre : List Item)
      → has_key it.key pre ≡ false
      → has_key it.key post ≡ false
      → has_key it.key (after t (pre ++ it ∷ post)) ≡ ltb t it.ts
  unfolding after
  after-at t [] h p = ground (arith, same_refl it.key, has_key-after it.key t post)
  after-at t (x ∷ pre) h p = ground (arith, after-at t pre)

  one_a_month-at :
      (n : ℕ) (months : List ℕ) (pre : List Item)
      → length months < n
      → has_key it.key pre ≡ false
      → has_key it.key post ≡ false
      → has_key it.key (one_a_month n months (pre ++ it ∷ post)) ≡ (
          not (contains (month it) (months_of months pre)) && ltb (length (months_of months pre)) n)
  unfolding one_a_month
  one_a_month-at n months [] m h p =
      ground (arith, same_refl it.key, has_key-one_a_month it.key n months post)
  one_a_month-at n months (x ∷ pre) m h p = elim (Bool-cases (contains (month x) months)) [
    | inl seen ↦ let ih = one_a_month-at n months pre m (ground arith) p in ground (arith, ih)
    | inr new ↦ elim (Bool-cases (leb n (suc (length months)))) [
      | inl full ↦ let more = length-months_of (month x ∷ months) pre in ground (arith, more)
      | inr room ↦
          let ih = one_a_month-at n (month x ∷ months) pre (ground arith) (ground arith) p in
          ground (arith, ih)
    ]
  ]

abbrev pub listed : List ℕ → List (List ℕ) → Bool
listed k [] = false
listed k (j ∷ js) = same j k || listed k js

pub listed-dropped_absent :
    (k : List ℕ) (kept its : List Item)
    → has_key k its ≡ false
    → listed k (dropped kept its) ≡ false
unfolding dropped
listed-dropped_absent k kept [] h = refl
listed-dropped_absent k kept (x ∷ its) h = ground (arith, listed-dropped_absent k kept its)

listed-dropped :
    (kept : List Item) (it : Item) (post pre : List Item)
    → has_key it.key pre ≡ false
    → has_key it.key post ≡ false
    → listed it.key (dropped kept (pre ++ it ∷ post)) ≡ not (has_key it.key kept)
unfolding dropped
listed-dropped kept it post [] h p =
    ground (arith, same_refl it.key, listed-dropped_absent it.key kept post)
listed-dropped kept it post (x ∷ pre) h p = ground (arith, listed-dropped kept it post pre)

has_key-if :
    (k : List ℕ) (b : Bool) (xs : List Item)
    → has_key k (if b then xs else []) ≡ (b && has_key k xs)
has_key-if k true xs = refl
has_key-if k false xs = refl

keep-at :
    (daily monthly days limit : ℕ) (cutoff : ℕ → ℕ) (pre : List Item) (it : Item) (post : List Item)
    → cutoff days ≡ limit
    → has_key it.key pre ≡ false
    → has_key it.key post ≡ false
    → has_key it.key (keep (pre ++ it ∷ post) daily monthly days cutoff) ≡ (
        ltb (length pre) 1
        || ((ltb 0 days && ltb limit it.ts)
            || (ltb (length pre) daily
                || (ltb 0 monthly
                    && (not (contains (month it) (months_of [] pre))
                        && ltb (length (months_of [] pre)) monthly)))))
unfolding keep
keep-at daily monthly days limit cutoff pre it post is h p =
    let its = pre ++ it ∷ post in
    let recent = if ltb 0 days then after (cutoff days) its else [] in
    let months = if ltb 0 monthly then one_a_month monthly [] its else [] in
    let a = has_key-append it.key (take 1 its) (recent ++ (take daily its ++ months)) in
    let b = has_key-append it.key recent (take daily its ++ months) in
    let c = has_key-append it.key (take daily its) months in
    let newest = take-at it post 1 pre h p in
    let young = has_key-if it.key (ltb 0 days) (after (cutoff days) its) in
    let young' = after-at it post (cutoff days) pre h p in
    let many = take-at it post daily pre h p in
    let one = has_key-if it.key (ltb 0 monthly) (one_a_month monthly [] its) in
    let one' = one_a_month-at it post monthly [] pre in
    ground (arith, a, b, c, newest, young, young', many, one, one', is)

-- What retention deletes of the backups of a volume, put in order of time: those before a backup are no older
-- than it, those after it no newer. It is deleted exactly if it is not the first; is not younger than the
-- days that are kept whole; has as many before it as are kept in any case; and has before it one of its own
-- month, or as many months as are kept. (No other object has its key.)
pub select_prune_exact :
    (keys : List (List ℕ)) (daily monthly days : ℕ) (cutoff : ℕ → ℕ) (pre : List Item) (it : Item)
    (post : List Item)
    → sort_desc (λ b. b.ts) (items_of keys) ≡ pre ++ it ∷ post
    → has_key it.key pre ≡ false
    → has_key it.key post ≡ false
    → All (λ b. it.ts ≤ b.ts) pre
      × All (λ b. b.ts ≤ it.ts) post
      × (listed it.key (select_prune keys daily monthly days cutoff) ≡ (
          ltb 0 (length pre)
          && (not (ltb 0 days && ltb (cutoff days) it.ts)
              && (leb daily (length pre)
                  && not (
                      ltb 0 monthly
                      && (not (contains (month it) (months_of [] pre))
                          && ltb (length (months_of [] pre)) monthly))))))
unfolding select_prune
select_prune_exact keys daily monthly days cutoff pre it post sorted h p =
    let d : IsDescending (λ b. b.ts) (pre ++ it ∷ post) =
      rw (← sorted) (sort_desc-IsDescending (λ b. b.ts) (items_of keys)) in
    let (newer, older) = IsDescending-split (λ b. b.ts) it post pre d in
    (
      newer,
      older,
      rw sorted (
          listed-dropped (keep (pre ++ it ∷ post) daily monthly days cutoff) it post pre h p
          ∙ ground (arith, keep-at daily monthly days (cutoff days) cutoff pre it post refl h p)),
    )
