-- ===== src/Prelude/Split.antt =====
-- Cutting and trimming of Go strings, on ASCII bytes.
use Prim.Native.Nat.{ℕ}
use mathlib.Core.Path.{◌≡◌, refl}
use mathlib.Core.Bool.{Bool, false, ◌&&◌, ◌||◌}
use mathlib.Core.Option.{Option, none, some}
use mathlib.Core.List.{List, [], ◌∷◌, ◌++◌}
use native.Mathlib.Omega.{arith}
use sip_server.Prelude.Tests.{leb, ◌==◌, if◌then◌else◌}
use sip_server.Prelude.Strings.{Text, is_empty}

-- What stands before and after the first byte `d`, if there is one.
unfoldable pub cut : ℕ → Text → Option (Text × Text)
cut d [] = none
cut d (c ∷ s) =
    let rest = cut d s in
    if c == d then some ([], s) else elim rest [ none ↦ none | some (a, b) ↦ some (c ∷ a, b) ]

-- `strings.Split` at a byte.
unfoldable pub split_on : ℕ → Text → List Text
split_on d [] = [] ∷ []
split_on d (c ∷ s) =
    let rest = split_on d s in
    if c == d then [] ∷ rest else elim rest [ [] ↦ (c ∷ []) ∷ [] | t ∷ ts ↦ (c ∷ t) ∷ ts ]

is_space : ℕ → Bool
is_space c = (leb 9 c && leb c 13) || c == 32

trim_left : Text → Text
unfolding is_space
trim_left [] = []
trim_left (c ∷ s) = let rest = trim_left s in if is_space c then rest else c ∷ s

trim_right : Text → Text
unfolding is_space
trim_right [] = []
trim_right (c ∷ s) = let rest = trim_right s in if is_empty rest && is_space c then [] else c ∷ rest

-- `strings.TrimSpace`
unfoldable pub trim_space : Text → Text
unfolding trim_left trim_right
trim_space s = trim_right (trim_left s)

-- `strings.TrimSuffix` of one byte.
unfoldable pub trim_suffix : ℕ → Text → Text
trim_suffix d [] = []
trim_suffix d (c ∷ s) = let rest = trim_suffix d s in if is_empty s && c == d then [] else c ∷ rest

-- What follows the prefix, if the string has it.
unfoldable pub strip_prefix : Text → Text → Option Text
strip_prefix [] s = some s
strip_prefix (c ∷ p) [] = none
strip_prefix (c ∷ p) (d ∷ s) = let rest = strip_prefix p s in if c == d then rest else none

-- Whether a byte stands in the string.
unfoldable pub has_byte : ℕ → Text → Bool
has_byte d [] = false
has_byte d (c ∷ s) = c == d || has_byte d s

pub cut-none : (d : ℕ) (s : Text) → has_byte d s ≡ false → cut d s ≡ none
unfolding cut has_byte
cut-none d [] h = refl
cut-none d (c ∷ s) h = ground (arith, cut-none d s)

pub cut-append : (d : ℕ) (s t : Text) → has_byte d s ≡ false → cut d (s ++ (d ∷ t)) ≡ some (s, t)
unfolding cut has_byte
cut-append d [] t h = ground arith
cut-append d (c ∷ s) t h = ground (arith, cut-append d s t)

until_space : Text → Text
unfolding is_space
until_space [] = []
until_space (c ∷ s) = let rest = until_space s in if is_space c then [] else c ∷ rest

-- The first of `strings.Fields`, empty if there is none.
unfoldable pub first_field : Text → Text
unfolding until_space trim_left
first_field s = until_space (trim_left s)
