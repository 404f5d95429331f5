-- ===== src/Base/Text.antt =====
-- Texts that the code walks byte by byte, and signed numbers.
use Prim.Native.Nat.{ℕ, zero, suc}
use Prim.Native.Char.{code}
use Prim.Native.String.{String}
use mathlib.Core.Path.{◌≡◌, refl, ap, ◌∙◌}
use mathlib.Core.Bool.{Bool, true, not, ◌&&◌, ◌||◌}
use native.Mathlib.Omega.{arith}
use mathlib.Core.List.{List, [], ◌∷◌}
use native_ops.Base.Tests.{leb, ◌==◌, if◌then◌else◌}

-- The code points of a text: its bytes, if it is ASCII.
abbrev pub codes : String → List ℕ
codes String.[] = []
codes (String.◌∷◌ c s) = code c ∷ codes s

abbrev pub str_take : ℕ → String → String
str_take zero s = String.[]
str_take (suc n) String.[] = String.[]
str_take (suc n) (String.◌∷◌ c s) = String.◌∷◌ c (str_take n s)

module _ {A : Type 0} where
  abbrev pub all : (A → Bool) → List A → Bool
  all p [] = true
  all p (x ∷ xs) = p x && all p xs

-- `negsuc n` is -(n + 1).
pub data ℤ : Type 0 where
  pos : ℕ → ℤ
  negsuc : ℕ → ℤ

-- `strings.TrimSpace`, on ASCII
abbrev pub is_space : ℕ → Bool
is_space c = (leb 9 c && leb c 13) || c == 32

abbrev trim_left : List ℕ → List ℕ
trim_left [] = []
trim_left (c ∷ cs) = let rest = trim_left cs in if is_space c then rest else c ∷ cs

abbrev trim_right : List ℕ → List ℕ
trim_right [] = []
trim_right (c ∷ cs) =
    let rest = trim_right cs in
    elim rest [ [] ↦ if is_space c then [] else c ∷ [] | d ∷ ds ↦ c ∷ d ∷ ds ]

abbrev pub trim_space : List ℕ → List ℕ
trim_space s = trim_right (trim_left s)

trim_left_lem : (s : List ℕ) → all (λ c. not (is_space c)) s ≡ true → trim_left s ≡ s
trim_left_lem [] h = refl
trim_left_lem (c ∷ cs) h = ground arith

trim_right_lem : (s : List ℕ) → all (λ c. not (is_space c)) s ≡ true → trim_right s ≡ s
trim_right_lem [] h = refl
trim_right_lem (c ∷ []) h = ground arith
trim_right_lem (c ∷ d ∷ ds) h = let ih = trim_right_lem (d ∷ ds) (ground arith) in rw ih refl

pub trim_space_lem : (s : List ℕ) → all (λ c. not (is_space c)) s ≡ true → trim_space s ≡ s
trim_space_lem s h = ap trim_right (trim_left_lem s h) ∙ trim_right_lem s h
