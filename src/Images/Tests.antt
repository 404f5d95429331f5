-- ===== src/Images/Tests.antt =====
-- Images that retention deletes and keeps, and the theorem at a concrete input.
use native_ops.Base.{
  ℕ, ◌≡◌, refl, String, codes, Bool, true, false, List, [], ◌∷◌, All, str_eq, some,
}
use native_ops.Images.{
  ImageRetention, HostImage, PrunedImage, Reason, images_to_prune, no_aliases, orphan_reason,
  pruned,
}
use native_ops.Base.Sort.{Member}
use native_ops.Images.Unused.{MayGo}
use native_ops.Images.Orphans.{images_to_prune-MayGo}

abbrev image : String → List (List ℕ) → ℕ → Bool → HostImage
image fingerprint aliases created cached = record {
  fingerprint = fingerprint;
  aliases = aliases;
  created = created;
  size = 1;
  cached = cached;
}

abbrev on_host : List HostImage
on_host =
    image "a" (codes "no/web:1" ∷ []) 1 false
    ∷ image "b" (codes "no/web:2" ∷ []) 2 false
    ∷ image "c" (codes "no/web:3" ∷ codes "no/web:latest" ∷ []) 3 false
    ∷ image "d" [] 1 false
    ∷ image "e" [] 9 false
    ∷ image "f" [] 1 true
    ∷ image "g" (codes "mine" ∷ []) 1 false
    ∷ image "h" [] 1 false
    ∷ []

abbrev runs : String → Bool
runs f = str_eq f "h"

abbrev retention : ImageRetention
retention = record {
  prefix = codes "no/";
  keep_tags = 1;
  orphan_age = 5;
  app = [];
  displaced = "e";
}

abbrev names : List PrunedImage → List String
names [] = []
names (p ∷ ps) = p.fingerprint ∷ names ps

pruned_names : names (images_to_prune on_host runs retention 10) ≡ "d" ∷ "e" ∷ "b" ∷ "a" ∷ []
unfolding images_to_prune native_ops.Base.Sort.sort_desc native_ops.Base.Sort.place
pruned_names = refl

images_to_prune-MayGo_example :
    All (MayGo on_host runs retention 10) (images_to_prune on_host runs retention 10)
    × ((img : HostImage) (why : Reason)
        → Member img on_host
        → runs img.fingerprint ≡ false
        → no_aliases img ≡ true
        → orphan_reason retention 10 img ≡ some why
        → Member (pruned img why) (images_to_prune on_host runs retention 10))
images_to_prune-MayGo_example = images_to_prune-MayGo runs retention 10 on_host
