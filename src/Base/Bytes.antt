-- ===== src/Base/Bytes.antt =====
-- Texts as lists of their characters' codes: comparison, lower case, trimming, and numbers in decimal.
use Prim.Native.Nat.{ℕ, zero, suc, ◌+◌, ◌*◌, ◌-◌, ◌/◌, ◌%◌, ◌<◌}
use mathlib.Core.Path.{◌≡◌, refl, ap, ◌∙◌, sym}
use mathlib.Core.Logic.{inl, inr}
use mathlib.Core.Bool.{Bool, true, false, ◌&&◌}
use mathlib.Core.Option.{Option, none, some}
use mathlib.Core.List.{List, [], ◌∷◌, ◌++◌}
use native.Mathlib.Omega.{arith}
use native_ops.Base.Tests.{ltb, leb, ◌==◌, if◌then◌else◌, Bool-cases}
use native_ops.Base.Lists.{contains}

abbrev pub same : List ℕ → List ℕ → Bool
same [] [] = true
same [] (d ∷ ds) = false
same (c ∷ cs) [] = false
same (c ∷ cs) (d ∷ ds) = c == d && same cs ds

pub same_refl : (s : List ℕ) → same s s ≡ true
same_refl [] = refl
same_refl (c ∷ cs) = ground (arith, same_refl cs)

pub same_eq : (s t : List ℕ) → same s t ≡ true → s ≡ t
same_eq [] [] h = refl
same_eq [] (d ∷ ds) h = absurd (ground arith)
same_eq (c ∷ cs) [] h = absurd (ground arith)
same_eq (c ∷ cs) (d ∷ ds) h =
    let is : c ≡ d = ground arith in rw (is, same_eq cs ds (ground arith)) refl

abbrev lower_char : ℕ → ℕ
lower_char c = if leb b'A' c && leb c b'Z' then c + 32 else c

-- `strings.ToLower`, on ASCII
abbrev pub lower : List ℕ → List ℕ
lower [] = []
lower (c ∷ cs) = lower_char c ∷ lower cs

-- `strings.Trim` with a set of characters to take off
abbrev pub trim_start : List ℕ → List ℕ → List ℕ
trim_start cut [] = []
trim_start cut (c ∷ cs) = let rest = trim_start cut cs in if contains c cut then rest else c ∷ cs

-- a character before what is left of the rest
abbrev pub kept_before : List ℕ → ℕ → List ℕ → List ℕ
kept_before cut c [] = if contains c cut then [] else c ∷ []
kept_before cut c (d ∷ ds) = c ∷ d ∷ ds

abbrev pub trim_end : List ℕ → List ℕ → List ℕ
trim_end cut [] = []
trim_end cut (c ∷ cs) = kept_before cut c (trim_end cut cs)

-- what stands before the first of a character, and after it
abbrev pub split_at : ℕ → List ℕ → Option (List ℕ × List ℕ)
split_at x [] = none
split_at x (c ∷ cs) =
    let rest = split_at x cs in
    if c == x then some ([], cs) else elim rest [ none ↦ none | some p ↦ some (c ∷ p.0, p.1) ]

-- what stands before the last of a character, and after it
abbrev pub split_at_last : ℕ → List ℕ → Option (List ℕ × List ℕ)
split_at_last x [] = none
split_at_last x (c ∷ cs) = elim (split_at_last x cs) [
  | some p ↦ some (c ∷ p.0, p.1)
  | none ↦ if c == x then some ([], cs) else none
]

-- `%d`, with room for `room` digits
abbrev pub digits : ℕ → ℕ → List ℕ
digits zero n = []
digits (suc room) n =
    let rest = digits room (n / 10) in
    if ltb n 10 then (b'0' + n) ∷ [] else rest ++ (b'0' + n % 10) ∷ []

-- a number has no more digits than its own size
abbrev pub decimal : ℕ → List ℕ
decimal n = digits (suc n) n

-- the number that digits stand for
abbrev value : ℕ → List ℕ → ℕ
value acc [] = acc
value acc (c ∷ cs) = value (10 * acc + (c - b'0')) cs

value-append :
    (acc : ℕ) (s : List ℕ) (c : ℕ) → value acc (s ++ c ∷ []) ≡ 10 * value acc s + (c - b'0')
value-append acc [] c = refl
value-append acc (d ∷ ds) c = value-append (10 * acc + (d - b'0')) ds c

value-digits : (room n : ℕ) → n < room → value 0 (digits room n) ≡ n
value-digits zero n h = absurd (omega arith)
value-digits (suc room) n h = elim (Bool-cases (ltb n 10)) [
  | inl small ↦ ground arith
  | inr big ↦
      let ih = value-digits room (n / 10) (ground arith) in
      ground (arith, ih, value-append 0 (digits room (n / 10)) (b'0' + n % 10))
]

pub decimal_injective : (m n : ℕ) → decimal m ≡ decimal n → m ≡ n
decimal_injective m n e =
    sym (value-digits (suc m) m (omega arith))
    ∙ ap (value 0) e
    ∙ value-digits (suc n) n (omega arith)
