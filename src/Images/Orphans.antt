-- ===== src/Images/Orphans.antt =====
-- What retention deletes of a host's images (ImagesToPrune of pkg/engine/imageprune.go).
use native_ops.Base.{
  ℕ, ◌≡◌, refl, ap, String, Bool, true, false, some, List, [], ◌∷◌, ◌++◌, All, Bool-cases,
  Option-cases, inl, inr,
}
use native_ops.Base.Sort.{Member}
use native_ops.Images.{
  ImageRetention, HostImage, Reason, PrunedImage, pruned, orphan_reason, app_of, Sorting,
  no_aliases, sort_image, sort_images, all_old_tags, sorted_apps, unsorted, images_to_prune,
}
use native_ops.Images.Unused.{MayGo, All-images_to_prune}

module _ (in_use : String → Bool) (r : ImageRetention) (now : ℕ) where
  Member-append_left :
      (p : PrunedImage) (ps qs : List PrunedImage) → Member p ps → Member p (ps ++ qs)
  Member-append_left p [] qs h = absurd h
  Member-append_left p (q ∷ ps) qs (inl e) = inl e
  Member-append_left p (q ∷ ps) qs (inr h) = inr (Member-append_left p ps qs h)

  Member-last : (p : PrunedImage) (ps : List PrunedImage) → Member p (ps ++ p ∷ [])
  Member-last p [] = inl refl
  Member-last p (q ∷ ps) = inr (Member-last p ps)

  out-grows :
      (p : PrunedImage) (img : HostImage) (s : Sorting)
      → Member p s.out
      → Member p (sort_image r now in_use img s).out
  unfolding sort_image
  out-grows p img s h = elim (Bool-cases (in_use img.fingerprint)) [
    | inl used ↦ rw (used, sort_image) h
    | inr unused ↦ elim (Bool-cases (no_aliases img)) [
      | inl bare ↦ elim (Option-cases (orphan_reason r now img)) [
        | inl stays ↦ rw (unused, bare, stays, sort_image) h
        | inr (why, goes) ↦
            rw (unused, bare, goes, sort_image) (Member-append_left p s.out (pruned img why ∷ []) h)
      ]
      | inr named ↦ elim (Option-cases (app_of r img)) [
        | inl other ↦ rw (unused, named, other, sort_image) h
        | inr (app, own) ↦ rw (unused, named, own, sort_image) h
      ]
    ]
  ]

  all_grow :
      (p : PrunedImage) (imgs : List HostImage) (s : Sorting)
      → Member p s.out
      → Member p (sort_images r now in_use imgs s).out
  unfolding sort_images
  all_grow p [] s h = h
  all_grow p (img ∷ rest) s h =
      all_grow p rest (sort_image r now in_use img s) (out-grows p img s h)

  now_out :
      (img : HostImage) (why : Reason) (s : Sorting)
      → in_use img.fingerprint ≡ false
      → no_aliases img ≡ true
      → orphan_reason r now img ≡ some why
      → Member (pruned img why) (sort_image r now in_use img s).out
  unfolding sort_image
  now_out img why s unused bare goes =
      rw (unused, bare, goes, sort_image) (Member-last (pruned img why) s.out)

  orphan_out :
      (img : HostImage) (why : Reason) (imgs : List HostImage) (s : Sorting)
      → Member img imgs
      → in_use img.fingerprint ≡ false
      → no_aliases img ≡ true
      → orphan_reason r now img ≡ some why
      → Member (pruned img why) (sort_images r now in_use imgs s).out
  unfolding sort_images
  orphan_out img why [] s h unused bare goes = absurd h
  orphan_out img why (x ∷ rest) s (inl is) unused bare goes =
      all_grow (pruned img why) rest (sort_image r now in_use x s)
        (rw (ap (λ y. sort_image r now in_use y s) is) (now_out img why s unused bare goes))
  orphan_out img why (x ∷ rest) s (inr later) unused bare goes =
      orphan_out img why rest (sort_image r now in_use x s) later unused bare goes

  -- Every image that retention deletes is one of the host's, no instance runs it, and it is deleted under its
  -- own fingerprint for a reason that holds of it. It has no alias, is no cache of a remote image, and is the
  -- one that a build has just displaced, or else is old enough and no build's cleanup. Or all its aliases are
  -- tags of the one app, which is the app to clean up, none is `latest`, and of the images of that app that no
  -- instance runs, more than are to be kept are as new as it, itself among them. And each image with no alias
  -- that no instance runs is deleted, if there is such a reason.
  pub images_to_prune-MayGo :
      (images : List HostImage)
      → All (MayGo images in_use r now) (images_to_prune images in_use r now)
        × ((img : HostImage) (why : Reason)
            → Member img images
            → in_use img.fingerprint ≡ false
            → no_aliases img ≡ true
            → orphan_reason r now img ≡ some why
            → Member (pruned img why) (images_to_prune images in_use r now))
  unfolding images_to_prune
  images_to_prune-MayGo images = (
    All-images_to_prune images in_use r now,
    λ img why there unused bare goes.
        let s = sort_images r now in_use images unsorted in
        Member-append_left (pruned img why) s.out
          (all_old_tags r.keep_tags s.by_app (sorted_apps s.apps))
          (orphan_out img why images unsorted there unused bare goes),
  )
