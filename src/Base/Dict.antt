-- ===== src/Base/Dict.antt =====
-- A Go map with string keys, as the list of its entries. The list's order stands for the order in
-- which a `range` over the map happens to go.
use Prim.Native.String.{String}
use mathlib.Core.Path.{◌≡◌, refl}
use mathlib.Core.Option.{Option, none, some}
use mathlib.Core.List.{List, [], ◌∷◌}
use native.Mathlib.Omega.{arith}
use text.Mathlib.Text.{◌==◌ as str_eq}
use text.Mathlib.TextEquality.{eq_iff}
use native_ops.Base.Tests.{if◌then◌else◌}

abbrev pub Dict {ℓ} : Type ℓ → Type ℓ
Dict V = List (String × V)

module _ {ℓ} {V : Type ℓ} where
  unfoldable pub lookup : String → Dict V → Option V
  lookup want [] = none
  lookup want ((key, x) ∷ rest) = if str_eq key want then some x else lookup want rest

  -- an entry that is there is overwritten in place
  unfoldable pub insert : String → V → Dict V → Dict V
  insert new x [] = (new, x) ∷ []
  insert new x ((key, y) ∷ rest) =
      if str_eq key new then (new, x) ∷ rest else (key, y) ∷ insert new x rest

  unfoldable pub erase : String → Dict V → Dict V
  erase old [] = []
  erase old ((key, y) ∷ rest) =
      let others = erase old rest in if str_eq key old then others else (key, y) ∷ others

  pub lookup-insert :
      (new want : String) (x : V) (d : Dict V)
      → lookup want (insert new x d) ≡ (if str_eq new want then some x else lookup want d)
  unfolding insert lookup
  lookup-insert new want x [] = refl
  lookup-insert new want x ((key, y) ∷ rest) =
      ground
        (arith, lookup-insert new want x rest, eq_iff key new, eq_iff key want, eq_iff new want)

  pub lookup-erase :
      (old want : String) (d : Dict V)
      → lookup want (erase old d) ≡ (if str_eq old want then none else lookup want d)
  unfolding erase lookup
  lookup-erase old want [] = ground arith
  lookup-erase old want ((key, y) ∷ rest) =
      ground (arith, lookup-erase old want rest, eq_iff key old, eq_iff key want, eq_iff old want)

  -- no key has two entries
  abbrev pub Unique : Dict V → Type ℓ
  Unique [] = Unit
  Unique ((k, v) ∷ m) = (lookup k m ≡ none) × Unique m

  pub insert-Unique : (k : String) (v : V) (m : Dict V) → Unique m → Unique (insert k v m)
  unfolding lookup insert
  insert-Unique k v [] u = (refl, tt)
  insert-Unique k v ((j, w) ∷ m) u =
      ground (arith, insert-Unique k v m, lookup-insert k j v m, eq_iff k j, eq_iff j k)

  pub erase-Unique : (k : String) (m : Dict V) → Unique m → Unique (erase k m)
  unfolding lookup erase
  erase-Unique k [] u = tt
  erase-Unique k ((j, w) ∷ m) u =
      ground (arith, erase-Unique k m, lookup-erase k j m, eq_iff k j, eq_iff j k)

  abbrev pub values : Dict V → List V
  values [] = []
  values ((k, v) ∷ m) = v ∷ values m
