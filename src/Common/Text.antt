-- ===== src/Common/Text.antt =====
-- Go strings and byte slices as lists of byte values, and what the code uses of `strings`, `bytes`.
use Prim.Native.Nat.{ℕ, ◌+◌}
use Prim.Native.Char.{code}
use Prim.Native.String.{String}
use mathlib.Core.Path.{◌≡◌, refl}
use mathlib.Core.Logic.{◌↔◌}
use mathlib.Core.Bool.{Bool, true, false, ◌&&◌, ◌||◌}
use mathlib.Core.List.{List, [], ◌∷◌, ◌++◌, map}
use mathlib.Core.Option.{Option, none, some}
use native.Mathlib.Omega.{arith}
use cpa_github_copilot.Common.Tests.{ltb, leb, nat_eq, if◌then◌else◌, Eq}

abbrev pub Bytes : Type 0
Bytes = List ℕ

-- The code points of a text, its bytes for the ASCII literals of the code.
abbrev pub codes : String → Bytes
codes String.[] = []
codes (String.◌∷◌ first rest) = code first ∷ codes rest

unfoldable pub bytes_eq : Bytes → Bytes → Bool
bytes_eq [] [] = true
bytes_eq [] (_ ∷ _) = false
bytes_eq (_ ∷ _) [] = false
bytes_eq (a ∷ s) (b ∷ t) = nat_eq a b && bytes_eq s t

pub bytes_eq_iff : (s t : Bytes) → (bytes_eq s t ≡ true) ↔ (s ≡ t)
unfolding bytes_eq
bytes_eq_iff [] [] = (λ _. refl, λ _. refl)
bytes_eq_iff [] (b ∷ t) = (λ h. cc, λ h. cc)
bytes_eq_iff (a ∷ s) [] = (λ h. cc, λ h. cc)
bytes_eq_iff (a ∷ s) (b ∷ t) = ground (arith, bytes_eq_iff s t)

instance abbrev pub Bytes_eq : Eq Bytes
Bytes_eq = record { is_equal = bytes_eq; is_equal_iff = bytes_eq_iff }

-- Go's `<` on strings, byte by byte.
unfoldable pub bytes_lt : Bytes → Bytes → Bool
bytes_lt [] [] = false
bytes_lt [] (_ ∷ _) = true
bytes_lt (_ ∷ _) [] = false
bytes_lt (a ∷ s) (b ∷ t) = ltb a b || (nat_eq a b && bytes_lt s t)

-- The white space of `strings.TrimSpace` and `bytes.TrimSpace` within ASCII.
abbrev pub is_space : ℕ → Bool
is_space c = (leb 9 c && leb c 13) || nat_eq c 32

unfoldable pub trim_left : Bytes → Bytes
trim_left [] = []
trim_left (c ∷ s) = let rest = trim_left s in if is_space c then rest else c ∷ s

unfoldable pub trim_cons : ℕ → Bytes → Bytes
trim_cons c [] = if is_space c then [] else c ∷ []
trim_cons c (d ∷ s) = c ∷ d ∷ s

-- Drops the white space at the right end.
unfoldable pub trim_right : Bytes → Bytes
unfolding trim_cons
trim_right [] = []
trim_right (c ∷ s) = trim_cons c (trim_right s)

unfoldable pub trim_space : Bytes → Bytes
unfolding trim_left trim_right
trim_space s = trim_right (trim_left s)

-- `strings.ToLower` within ASCII.
unfoldable pub lower_byte : ℕ → ℕ
lower_byte c = if leb 65 c && leb c 90 then c + 32 else c

unfoldable pub to_lower : Bytes → Bytes
unfolding lower_byte
to_lower s = map lower_byte s

-- `strings.EqualFold` within ASCII.
unfoldable pub equal_fold : Bytes → Bytes → Bool
unfolding to_lower bytes_eq
equal_fold s t = bytes_eq (to_lower s) (to_lower t)

-- `strings.CutPrefix`: the rest after the prefix, if it is one.
unfoldable pub cut_prefix : Bytes → Bytes → Option Bytes
cut_prefix [] s = some s
cut_prefix (p ∷ ps) [] = none
cut_prefix (p ∷ ps) (c ∷ s) = let rest = cut_prefix ps s in if nat_eq p c then rest else none

unfoldable pub has_prefix : Bytes → Bytes → Bool
has_prefix [] s = true
has_prefix (p ∷ ps) [] = false
has_prefix (p ∷ ps) (c ∷ s) = nat_eq p c && has_prefix ps s

unfoldable pub is_digit : ℕ → Bool
is_digit c = leb 48 c && leb c 57

-- `strings.Contains` for one byte.
unfoldable pub has_byte : ℕ → Bytes → Bool
has_byte b [] = false
has_byte b (c ∷ s) = nat_eq c b || has_byte b s

-- The first part of `strings.Split` by one byte, and the others.
unfoldable pub split_parts : ℕ → Bytes → Bytes × List Bytes
split_parts sep [] = ([], [])
split_parts sep (c ∷ s) =
    let (part, parts) = split_parts sep s in
    if nat_eq c sep then ([], part ∷ parts) else (c ∷ part, parts)

unfoldable pub split : ℕ → Bytes → List Bytes
unfolding split_parts
split sep s = let (part, parts) = split_parts sep s in part ∷ parts

-- `strings.Join` by one byte.
unfoldable pub join : ℕ → List Bytes → Bytes
join sep [] = []
join sep (s ∷ []) = s
join sep (s ∷ t ∷ ts) = s ++ (sep ∷ join sep (t ∷ ts))

join_cons :
    (sep c : ℕ) (part : Bytes) (parts : List Bytes)
    → join sep ((c ∷ part) ∷ parts) ≡ c ∷ join sep (part ∷ parts)
unfolding join
join_cons sep c part [] = refl
join_cons sep c part (p ∷ ps) = refl

pub join-split : (sep : ℕ) (s : Bytes) → join sep (split sep s) ≡ s
unfolding join split
join-split sep [] = refl
join-split sep (c ∷ s) =
    let (part, parts) = split_parts sep s in
    ground (arith, join-split sep s, join_cons sep c part parts)
