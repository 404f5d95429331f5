-- ===== src/Images.antt =====
-- Which images of a host retention deletes (ImagesToPrune of pkg/engine/imageprune.go).
-- Aliases, the prefix and the names of apps are lists of their characters' codes. Times are numbers of
-- nanoseconds; the reasons that are logged are data.
pub mod Unused
pub mod Orphans
mod Tests
use native_ops.Base.{
  ℕ, suc, ◌+◌, ◌-◌, ◌*◌, String, codes, Bool, true, false, not, ◌&&◌, ◌||◌, Option, none, some,
  List, [], ◌∷◌, ◌++◌, ltb, leb, ◌==◌, str_eq, length, all, drop, if◌then◌else◌,
}
use native_ops.Base.Bytes.{same, split_at}
use native_ops.Base.Sort.{sort_desc}
use native_ops.Tokens.{starts_with, after}
use native_ops.Labels.{between}

pub record ImageRetention : Type 0 where
  pub prefix : List ℕ
  pub keep_tags : ℕ
  pub orphan_age : ℕ
  pub app : List ℕ
  pub displaced : String

pub record HostImage : Type 0 where
  pub fingerprint : String
  pub aliases : List (List ℕ)
  pub created : ℕ
  pub size : ℕ
  pub cached : Bool

pub data Reason : Type 0 where
  replaced old_orphan : Reason
  old_tag : List ℕ → Reason

pub record PrunedImage : Type 0 where
  pub fingerprint : String
  pub aliases : List (List ℕ)
  pub size : ℕ
  pub why : Reason

abbrev pub is_empty : List ℕ → Bool
is_empty [] = true
is_empty (c ∷ cs) = false

abbrev is_app_char : ℕ → Bool
is_app_char c = between b'a' b'z' c || between b'0' b'9' c

-- `ValidImageApp`: a lowercase letter or a digit, then up to 40 of these and dashes
unfoldable pub valid_image_app : List ℕ → Bool
valid_image_app [] = false
valid_image_app (c ∷ cs) =
    is_app_char c && (leb (length cs) 40 && all (λ d. is_app_char d || d == b'-') cs)

-- the loop of `ownApp`, with the app so far
unfoldable pub own_app_from : List ℕ → List ℕ → List (List ℕ) → Option (List ℕ)
unfolding valid_image_app
own_app_from prefix app [] = if is_empty app then none else some app
own_app_from prefix app (a ∷ rest) =
    if not (starts_with prefix a) then none else elim (split_at b':' (after (length prefix) a)) [
      | none ↦ none
      | some parts ↦
          let others = own_app_from prefix parts.0 rest in
          if not (valid_image_app parts.0)
            || (is_empty parts.1 || (not (is_empty app) && not (same parts.0 app)))
          then none
          else others
    ]

-- `ownApp`
unfoldable pub own_app : List (List ℕ) → List ℕ → Option (List ℕ)
unfolding own_app_from
own_app aliases prefix = own_app_from prefix [] aliases

abbrev ends_with_latest : List ℕ → Bool
ends_with_latest a = leb 7 (length a) && same (drop (length a - 7) a) (codes ":latest")

unfoldable pub has_latest : List (List ℕ) → Bool
has_latest [] = false
has_latest (a ∷ rest) = ends_with_latest a || has_latest rest

abbrev pub pruned : HostImage → Reason → PrunedImage
pruned img why = record {
  fingerprint = img.fingerprint;
  aliases = img.aliases;
  size = img.size;
  why = why;
}

-- why an image with no alias goes, if it does
unfoldable pub orphan_reason : ImageRetention → ℕ → HostImage → Option Reason
orphan_reason r now img =
    if img.cached
    then none
    else if not (str_eq r.displaced "") && str_eq img.fingerprint r.displaced
    then some replaced
    else if is_empty r.app && (ltb 0 r.orphan_age && leb r.orphan_age (now - img.created))
    then some old_orphan
    else none

-- the app under which an image with aliases is kept
unfoldable pub app_of : ImageRetention → HostImage → Option (List ℕ)
unfolding own_app
app_of r img =
    if r.keep_tags == 0 || is_empty r.prefix then none else elim (own_app img.aliases r.prefix) [
      | none ↦ none
      | some app ↦ if not (is_empty r.app) && not (same app r.app) then none else some app
    ]

-- `out` and the map `byApp`, as its keys and its values
pub record Sorting : Type 0 where
  pub out : List PrunedImage
  pub apps : List (List ℕ)
  pub by_app : List ℕ → List HostImage

abbrev pub is_listed : List ℕ → List (List ℕ) → Bool
is_listed a [] = false
is_listed a (b ∷ bs) = same b a || is_listed a bs

abbrev pub filed : List ℕ → HostImage → Sorting → Sorting
filed app img s = record s {
  apps = if is_listed app s.apps then s.apps else s.apps ++ app ∷ [];
  by_app = λ a. if same app a then s.by_app a ++ img ∷ [] else s.by_app a;
}

abbrev pub no_aliases : HostImage → Bool
no_aliases img = elim img.aliases [ [] ↦ true | a ∷ rest ↦ false ]

-- one round of the first loop
unfoldable pub sort_image : ImageRetention → ℕ → (String → Bool) → HostImage → Sorting → Sorting
unfolding orphan_reason app_of
sort_image r now in_use img s =
    if in_use img.fingerprint
    then s
    else if no_aliases img
    then elim (orphan_reason r now img) [
      | none ↦ s
      | some why ↦ record s { out = s.out ++ pruned img why ∷ [] }
    ]
    else elim (app_of r img) [ none ↦ s | some app ↦ filed app img s ]

unfoldable pub sort_images :
    ImageRetention → ℕ → (String → Bool) → List HostImage → Sorting → Sorting
unfolding sort_image
sort_images r now in_use [] s = s
sort_images r now in_use (img ∷ rest) s =
    sort_images r now in_use rest (sort_image r now in_use img s)

-- the loop over an app's images, the newest first, with the number that it has kept
unfoldable pub old_tags : ℕ → List ℕ → ℕ → List HostImage → List PrunedImage
unfolding has_latest
old_tags keep app kept [] = []
old_tags keep app kept (img ∷ rest) =
    let stays = old_tags keep app (suc kept) rest in
    let goes = old_tags keep app kept rest in
    if has_latest img.aliases || ltb kept keep then stays else pruned img (old_tag app) ∷ goes

-- the order of `sort.Strings`
abbrev comes_before : List ℕ → List ℕ → Bool
comes_before [] t = true
comes_before (c ∷ cs) [] = false
comes_before (c ∷ cs) (d ∷ ds) = ltb c d || (c == d && comes_before cs ds)

unfoldable pub sorted_in : List ℕ → List (List ℕ) → List (List ℕ)
sorted_in a [] = a ∷ []
sorted_in a (b ∷ bs) = if comes_before a b then a ∷ b ∷ bs else b ∷ sorted_in a bs

unfoldable pub sorted_apps : List (List ℕ) → List (List ℕ)
unfolding sorted_in
sorted_apps [] = []
sorted_apps (a ∷ rest) = sorted_in a (sorted_apps rest)

-- the loop over the apps
unfoldable pub all_old_tags : ℕ → (List ℕ → List HostImage) → List (List ℕ) → List PrunedImage
unfolding old_tags
all_old_tags keep by_app [] = []
all_old_tags keep by_app (app ∷ rest) =
    old_tags keep app 0 (sort_desc (λ img. img.created) (by_app app))
    ++ all_old_tags keep by_app rest

abbrev pub unsorted : Sorting
unsorted = record { out = []; apps = []; by_app = λ a. [] }

-- `ImagesToPrune`
unfoldable pub images_to_prune :
    List HostImage → (String → Bool) → ImageRetention → ℕ → List PrunedImage
unfolding sort_images sorted_apps all_old_tags
images_to_prune images in_use r now =
    let s = sort_images r now in_use images unsorted in
    s.out ++ all_old_tags r.keep_tags s.by_app (sorted_apps s.apps)
