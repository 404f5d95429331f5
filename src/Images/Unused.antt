-- ===== src/Images/Unused.antt =====
-- What an image that retention deletes is (pkg/engine/imageprune.go).
use native_ops.Base.{
  ℕ, suc, ◌-◌, ◌≡◌, ◌≤◌, refl, sym, ◌∙◌, ap, arith, String, Bool, true, false, not, ◌&&◌, ◌||◌,
  Option, none, some, List, [], ◌∷◌, ◌++◌, ltb, leb, str_eq, length, length-append, append_assoc,
  append-nil, All, if◌then◌else◌, Bool-cases, Option-cases, inl, inr, ◌⊎◌,
}
use native_ops.Base.Bytes.{same}
use native_ops.Base.Sort.{
  Member, count, sort_desc, sort_desc-IsDescending, IsDescending, count-sort_desc, Member-sort_desc,
  IsDescending-split,
}
use native_ops.Images.{
  ImageRetention, HostImage, Reason, replaced, old_orphan, old_tag, PrunedImage, is_empty,
  has_latest, pruned, orphan_reason, app_of, Sorting, no_aliases, sort_image, sort_images, old_tags,
  all_old_tags, unsorted, images_to_prune, sorted_apps,
}

abbrev files_under : List ℕ → Option (List ℕ) → Bool
files_under a none = false
files_under a (some app) = same app a

-- the images that `p` takes, in order
abbrev those : (HostImage → Bool) → List HostImage → List HostImage
those p [] = []
those p (x ∷ xs) = let rest = those p xs in if p x then x ∷ rest else rest

those-append :
    (p : HostImage → Bool) (x : HostImage) (xs : List HostImage) (ys : List HostImage)
    → (ys ++ those p (x ∷ xs)) ≡ ((if p x then ys ++ x ∷ [] else ys) ++ those p xs)
those-append p x xs [] = ground arith
those-append p x xs (y ∷ ys) = elim (Bool-cases (p x)) [
  | inl is ↦ rw is (ap (λ t. y ∷ t) (rw is at (those-append p x xs ys)))
  | inr not_so ↦ rw not_so refl
]

those-Member :
    (p : HostImage → Bool) (x : HostImage) (xs : List HostImage)
    → Member x (those p xs)
    → Member x xs × (p x ≡ true)
those-Member p x [] h = absurd h
those-Member p x (y ∷ ys) h = elim (Bool-cases (p y)) [
  | inr left_out ↦ let ih = those-Member p x ys (rw left_out at h) in (inr ih.0, ih.1)
  | inl taken ↦
      let c : (y ≡ x) ⊎ Member x (those p ys) = rw taken at h in
      elim c [
        | inl is ↦ (inl is, ap p (sym is) ∙ taken)
        | inr later ↦ let ih = those-Member p x ys later in (inr ih.0, ih.1)
      ]
]

count-those :
    (p q : HostImage → Bool) (xs : List HostImage)
    → count q (those p xs) ≡ count (λ b. p b && q b) xs
count-those p q [] = refl
count-those p q (x ∷ xs) = ground (arith, count-those p q xs)

module _ (all : List HostImage) (in_use : String → Bool) (r : ImageRetention) (now : ℕ) where
  -- an image of `app` that no instance runs, and that retention may look at
  abbrev pub is_tag_of : List ℕ → HostImage → Bool
  is_tag_of app img =
      not (in_use img.fingerprint) && (not (no_aliases img) && files_under app (app_of r img))

  -- what an image has to be to go for a reason
  abbrev pub may_go : HostImage → Reason → Bool
  may_go img replaced =
      not (in_use img.fingerprint)
      && (no_aliases img
          && (not img.cached
              && (not (str_eq r.displaced "") && str_eq img.fingerprint r.displaced)))
  may_go img old_orphan =
      not (in_use img.fingerprint)
      && (no_aliases img
          && (not img.cached
              && (is_empty r.app && (ltb 0 r.orphan_age && leb r.orphan_age (now - img.created)))))
  may_go img (old_tag app) =
      is_tag_of app img
      && (not (has_latest img.aliases)
          && ltb r.keep_tags (count (λ b. is_tag_of app b && leb img.created b.created) all))

  abbrev pub MayGo : PrunedImage → Type 0
  MayGo p =
      (img : HostImage) × (Member img all × ((p ≡ pruned img p.why) × (may_go img p.why ≡ true)))

  by_app-sort_image :
      (a : List ℕ) (img : HostImage) (s : Sorting)
      → (sort_image r now in_use img s).by_app a
        ≡ (if is_tag_of a img then s.by_app a ++ img ∷ [] else s.by_app a)
  unfolding sort_image
  by_app-sort_image a img s = elim (Option-cases (app_of r img)) [
    | inl e ↦ elim (Option-cases (orphan_reason r now img)) [
      | inl f ↦ ground (arith, e, f)
      | inr (why, f) ↦ ground (arith, e, f)
    ]
    | inr (app, e) ↦ elim (Option-cases (orphan_reason r now img)) [
      | inl f ↦ ground (arith, e, f)
      | inr (why, f) ↦ ground (arith, e, f)
    ]
  ]

  by_app-sort_images :
      (a : List ℕ) (imgs : List HostImage) (s : Sorting)
      → (sort_images r now in_use imgs s).by_app a ≡ s.by_app a ++ those (is_tag_of a) imgs
  unfolding sort_images
  by_app-sort_images a [] s = sym (append-nil (s.by_app a))
  by_app-sort_images a (img ∷ rest) s =
      by_app-sort_images a rest (sort_image r now in_use img s)
      ∙ (ap (λ t. t ++ those (is_tag_of a) rest) (by_app-sort_image a img s)
          ∙ sym (those-append (is_tag_of a) img rest (s.by_app a)))

  All-append : (ps qs : List PrunedImage) → All MayGo ps → All MayGo qs → All MayGo (ps ++ qs)
  All-append [] qs a b = b
  All-append (p ∷ ps) qs a b = (a.0, All-append ps qs a.1 b)

  orphan_reason-may_go :
      (img : HostImage) (why : Reason)
      → in_use img.fingerprint ≡ false
      → no_aliases img ≡ true
      → orphan_reason r now img ≡ some why
      → may_go img why ≡ true
  unfolding orphan_reason
  orphan_reason-may_go img replaced u n e = ground arith
  orphan_reason-may_go img old_orphan u n e = ground arith
  orphan_reason-may_go img (old_tag app) u n e = ground arith

  -- at least so many images of `all` stand before each one of a list, of the same app and no older
  abbrev Ranked : List ℕ → ℕ → List HostImage → Type 0
  Ranked app n [] = Unit
  Ranked app n (x ∷ xs) =
      ((suc n ≤ count (λ b. is_tag_of app b && leb x.created b.created) all)
        × (Member x all × (is_tag_of app x ≡ true)))
      × Ranked app (suc n) xs

  Ranked-weaken :
      (app : List ℕ) (n : ℕ) (xs : List HostImage) → Ranked app (suc n) xs → Ranked app n xs
  Ranked-weaken app n [] h = tt
  Ranked-weaken app n (x ∷ xs) h = ((omega (arith, h.0.0), h.0.1), Ranked-weaken app (suc n) xs h.1)

  old_tags-MayGo :
      (app : List ℕ) (n : ℕ) (xs : List HostImage)
      → Ranked app n xs
      → All MayGo (old_tags r.keep_tags app n xs)
  unfolding old_tags
  old_tags-MayGo app n [] h = tt
  old_tags-MayGo app n (x ∷ xs) h = elim (Bool-cases (has_latest x.aliases || ltb n r.keep_tags)) [
    | inl stays ↦ rw (stays, old_tags) (old_tags-MayGo app (suc n) xs h.1)
    | inr goes ↦
        rw (goes, old_tags)
          (
            (x, (h.0.1.0, (refl, ground (arith, goes, h)))),
            old_tags-MayGo app n xs (Ranked-weaken app n xs h.1),
          )
  ]

  out-sort_image :
      (img : HostImage) (s : Sorting)
      → Member img all
      → All MayGo s.out
      → All MayGo (sort_image r now in_use img s).out
  unfolding sort_image
  out-sort_image img s m h = elim (Bool-cases (in_use img.fingerprint)) [
    | inl used ↦ rw (used, sort_image) h
    | inr unused ↦ elim (Bool-cases (no_aliases img)) [
      | inl bare ↦ elim (Option-cases (orphan_reason r now img)) [
        | inl stays ↦ rw (unused, bare, stays, sort_image) h
        | inr (why, goes) ↦
            rw (unused, bare, goes, sort_image)
              (All-append s.out (pruned img why ∷ []) h
                ((img, (m, (refl, orphan_reason-may_go img why unused bare goes))), tt))
      ]
      | inr named ↦ elim (Option-cases (app_of r img)) [
        | inl other ↦ rw (unused, named, other, sort_image) h
        | inr (app, own) ↦ rw (unused, named, own, sort_image) h
      ]
    ]
  ]

  out-sort_images :
      (imgs : List HostImage) (s : Sorting)
      → ((x : HostImage) → Member x imgs → Member x all)
      → All MayGo s.out
      → All MayGo (sort_images r now in_use imgs s).out
  unfolding sort_images
  out-sort_images [] s m h = h
  out-sort_images (img ∷ rest) s m h =
      out-sort_images rest (sort_image r now in_use img s) (λ x i. m x (inr i))
        (out-sort_image img s (m img (inl refl)) h)

  no_older :
      (x : HostImage) (xs pre : List HostImage)
      → All (λ b. x.created ≤ b.created) pre
      → suc (length pre) ≤ count (λ b. leb x.created b.created) (pre ++ x ∷ xs)
  no_older x xs [] h = ground arith
  no_older x xs (b ∷ pre) h = let ih = no_older x xs pre h.1 in ground (arith, ih, h)

  Member-middle : (x : HostImage) (xs pre : List HostImage) → Member x (pre ++ x ∷ xs)
  Member-middle x xs [] = inl refl
  Member-middle x xs (b ∷ pre) = inr (Member-middle x xs pre)

  sorted-Ranked :
      (app : List ℕ) (ys xs pre : List HostImage)
      → ys ≡ pre ++ xs
      → IsDescending (λ b. b.created) ys
      → ((q : HostImage → Bool) → count q ys ≡ count (λ b. is_tag_of app b && q b) all)
      → ((x : HostImage) → Member x ys → Member x all × (is_tag_of app x ≡ true))
      → Ranked app (length pre) xs
  sorted-Ranked app ys [] pre e d c m = tt
  sorted-Ranked app ys (x ∷ xs) pre e d c m =
      let split = IsDescending-split (λ b. b.created) x xs pre (rw e at d) in
      let many = no_older x xs pre split.0 in
      let number : count (λ b. leb x.created b.created) (pre ++ x ∷ xs)
          ≡ count (λ b. is_tag_of app b && leb x.created b.created) all =
        rw (← e) (c (λ b. leb x.created b.created)) in
      let is = m x (rw e (Member-middle x xs pre)) in
      let rest =
        sorted-Ranked app ys xs (pre ++ x ∷ []) (e ∙ sym (append_assoc pre (x ∷ []) xs)) d c m in
      let len : length (pre ++ x ∷ []) ≡ suc (length pre) =
        omega (arith, length-append pre (x ∷ [])) in
      ((omega (arith, many, number), is), rw len at rest)

  app-Ranked :
      (app : List ℕ) → Ranked app 0 (sort_desc (λ b. b.created) (those (is_tag_of app) all))
  app-Ranked app =
      let mine = those (is_tag_of app) all in
      sorted-Ranked app (sort_desc (λ b. b.created) mine) (sort_desc (λ b. b.created) mine) [] refl
        (sort_desc-IsDescending (λ b. b.created) mine)
        (λ q. count-sort_desc (λ b. b.created) q mine ∙ count-those (is_tag_of app) q all)
        (λ x i. those-Member (is_tag_of app) x all (Member-sort_desc (λ b. b.created) x mine i))

  all_old_tags-MayGo :
      (by_app : List ℕ → List HostImage) (apps : List (List ℕ))
      → ((app : List ℕ) → by_app app ≡ those (is_tag_of app) all)
      → All MayGo (all_old_tags r.keep_tags by_app apps)
  unfolding all_old_tags
  all_old_tags-MayGo by_app [] h = tt
  all_old_tags-MayGo by_app (app ∷ rest) h =
      let ranked : Ranked app 0 (sort_desc (λ b. b.created) (by_app app)) =
        rw (h app) (app-Ranked app) in
      All-append (old_tags r.keep_tags app 0 (sort_desc (λ b. b.created) (by_app app)))
        (all_old_tags r.keep_tags by_app rest)
        (old_tags-MayGo app 0 (sort_desc (λ b. b.created) (by_app app)) ranked)
        (all_old_tags-MayGo by_app rest h)

  pub All-images_to_prune : All MayGo (images_to_prune all in_use r now)
  unfolding images_to_prune
  All-images_to_prune =
      let s = sort_images r now in_use all unsorted in
      All-append s.out (all_old_tags r.keep_tags s.by_app (sorted_apps s.apps))
        (out-sort_images all unsorted (λ x i. i) tt)
        (all_old_tags-MayGo s.by_app (sorted_apps s.apps)
          (λ app. by_app-sort_images app all unsorted))
