-- ===== src/Common/Text.antt =====
-- The methods of `str` that the services call. `lower` is Python's on ASCII letters and leaves every
-- other character alone.
use Prim.Native.Nat.{ℕ, zero, suc, ◌-◌, compare, Ordering}
use Prim.Native.Char.{Char, code}
use Prim.Native.String.{String, [], ◌∷◌, char_at}
use mathlib.Core.Bool.{Bool, true, false, ◌&&◌, ◌||◌}
use text.Mathlib.Text.{starts_with}
use codex_collaboration_coor.Common.Tests.{leb, if◌then◌else◌}

abbrev is_code : ℕ → ℕ → Bool
is_code a b = elim (compare a b) [ Ordering.eq ↦ true | _ ↦ false ]

abbrev within : ℕ → ℕ → ℕ → Bool
within lo hi n = leb lo n && leb n hi

-- `str.isspace` of one character.
unfoldable pub is_space : Char → Bool
is_space c =
    let n = code c in
    within 9 13 n
    || within 28 32 n
    || is_code n 0x85
    || is_code n 0xa0
    || is_code n 0x1680
    || within 0x2000 0x200a n
    || is_code n 0x2028
    || is_code n 0x2029
    || is_code n 0x202f
    || is_code n 0x205f
    || is_code n 0x3000

unfoldable pub lower_char : Char → Char
lower_char c =
    if within b'A' b'Z' (code c) then char_at "abcdefghijklmnopqrstuvwxyz" (code c - b'A') else c

unfoldable pub lower : String → String
unfolding lower_char
lower [] = []
lower (c ∷ s) = lower_char c ∷ lower s

unfoldable pub lstrip : String → String
unfolding is_space
lstrip [] = []
lstrip (c ∷ s) = let rest = lstrip s in if is_space c then rest else c ∷ s

abbrev keep_char : Char → String → String
keep_char c [] = if is_space c then [] else c ∷ []
keep_char c (d ∷ s) = c ∷ d ∷ s

unfoldable pub rstrip : String → String
unfolding is_space
rstrip [] = []
rstrip (c ∷ s) = keep_char c (rstrip s)

unfoldable pub strip : String → String
unfolding lstrip rstrip
strip s = rstrip (lstrip s)

-- `s[:n]`, by characters.
unfoldable pub take : ℕ → String → String
take zero s = []
take (suc n) [] = []
take (suc n) (c ∷ s) = c ∷ take n s

-- `needle in hay`
unfoldable pub contains : String → String → Bool
contains needle [] = starts_with [] needle
contains needle (c ∷ s) =
    let rest = contains needle s in if starts_with (c ∷ s) needle then true else rest

abbrev is_empty : String → Bool
is_empty [] = true
is_empty (_ ∷ _) = false

-- A final `Z` as `+00:00`.
unfoldable pub z_to_offset : String → String
z_to_offset [] = []
z_to_offset (c ∷ s) =
    let rest = z_to_offset s in if is_code (code c) b'Z' && is_empty s then "+00:00" else c ∷ rest

-- `s[n:]`, by characters.
unfoldable pub drop : ℕ → String → String
drop zero s = s
drop (suc n) [] = []
drop (suc n) (c ∷ s) = drop n s
