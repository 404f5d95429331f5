-- ===== src/Tokens/Inside.antt =====
-- What a label scope and a valid scope let a token do (Scope of pkg/server/tokens.go).
use native_ops.Base.{
  ◌≡◌, ◌↔◌, inl, inr, refl, arith, String, Bool, true, false, Option, some, List, [], ◌∷◌, All,
  Option-cases,
}
use native_ops.Base.Dict.{Dict, lookup}
use native_ops.Base.Sort.{Member}
use native_ops.Tokens.{match_any, allows_labels}

module _ (glob : String → String → Option Bool) where
  -- some pattern matches
  abbrev pub Matches : List String → String → Type 0
  Matches ps v = (p : String) × Member p ps × (glob p v ≡ some true)

  match_any_sound : (ps : List String) (v : String) → match_any glob ps v ≡ true → Matches ps v
  unfolding match_any
  match_any_sound [] v h = absurd (ground arith)
  match_any_sound (p ∷ ps) v h = elim (Option-cases (glob p v)) [
    | inl e ↦ let (q, m, y) = match_any_sound ps v (ground arith) in (q, inr m, y)
    | inr (true, e) ↦ (p, inl refl, e)
    | inr (false, e) ↦ let (q, m, y) = match_any_sound ps v (ground arith) in (q, inr m, y)
  ]

  match_any_complete : (ps : List String) (v : String) → Matches ps v → match_any glob ps v ≡ true
  unfolding match_any
  match_any_complete [] v (p, m, y) = absurd m
  match_any_complete (q ∷ ps) v (p, inl same, y) = rw same (ground (arith, y))
  match_any_complete (q ∷ ps) v (p, inr m, y) =
      let ih = match_any_complete ps v (p, m, y) in ground arith

  -- the instance has the label with an allowed value
  abbrev pub HasAllowed : Dict String → String × List String → Type 0
  HasAllowed labels (k, allowed) = (v : String) × (lookup k labels ≡ some v) × Matches allowed v

  -- An instance is inside a label scope exactly when it has every label that the scope names, each with a
  -- value that some pattern of the scope for it matches.
  pub allows_labels_iff :
      (scope : Dict (List String)) (labels : Dict String)
      → (allows_labels glob scope labels ≡ true) ↔ All (HasAllowed labels) scope
  unfolding allows_labels
  allows_labels_iff [] labels = (λ h. tt, λ h. refl)
  allows_labels_iff ((k, allowed) ∷ rest) labels = (
    λ h. elim (Option-cases (lookup k labels)) [
      | inl e ↦ absurd (ground arith)
      | inr (v, e) ↦ (
        (v, e, match_any_sound allowed v (ground arith)),
        (allows_labels_iff rest labels).0 (ground arith),
      )
    ],
    λ ((v, e, m), more).
        let here = match_any_complete allowed v m in
        let others = (allows_labels_iff rest labels).1 more in ground arith,
  )
