-- ===== src/Strings.antt =====
-- The functions of Go's package strings that the program calls, on the bytes of a string. Letters
-- outside ASCII have no case here; white space is Unicode's, found in its UTF-8 bytes.
pub mod Laws
pub mod Trim
pub mod Sort
pub mod Spelling
pub mod Case
use Prim.Native.Char.{code}
use Prim.Native.String
use Prim.Native.String.{String}
use arupa.Base.{ℕ, zero, suc, ◌+◌, ◌-◌, Bool, true, false, ◌&&◌, ◌||◌, List, [], ◌∷◌, ◌++◌, map}
use arupa.Base.{reverse, Option, none, some, nat_eqb, leb, if◌then◌else◌, length, GoString, drop}

-- A literal: the bytes of an ASCII text.
abbrev pub bytes : String → GoString
bytes String.[] = []
bytes (String.◌∷◌ c s) = code c ∷ bytes s

unfoldable pub has_prefix : GoString → GoString → Bool
has_prefix s [] = true
has_prefix [] (b ∷ p) = false
has_prefix (a ∷ s) (b ∷ p) = nat_eqb a b && has_prefix s p

unfoldable pub has_suffix : GoString → GoString → Bool
unfolding has_prefix
has_suffix s suffix = has_prefix (reverse s) (reverse suffix)

unfoldable pub trim_prefix : GoString → GoString → GoString
unfolding has_prefix
trim_prefix s prefix = if has_prefix s prefix then drop (length prefix) s else s

unfoldable pub trim_suffix : GoString → GoString → GoString
unfolding has_suffix
trim_suffix s suffix = if has_suffix s suffix then reverse (drop (length suffix) (reverse s)) else s

-- `strings.Cut` at a separator of one byte: what stands before it and after it.
unfoldable pub cut : GoString → ℕ → Option (GoString × GoString)
cut [] sep = none
cut (a ∷ s) sep =
    if nat_eqb a sep
    then some ([], s)
    else elim (cut s sep) [ none ↦ none | some (before, after) ↦ some (a ∷ before, after) ]

unfoldable pub upper_byte : ℕ → ℕ
upper_byte c = if leb b'a' c && leb c b'z' then c - 32 else c

unfoldable pub lower_byte : ℕ → ℕ
lower_byte c = if leb b'A' c && leb c b'Z' then c + 32 else c

unfoldable pub to_upper : GoString → GoString
unfolding upper_byte
to_upper s = map upper_byte s

unfoldable pub to_lower : GoString → GoString
unfolding lower_byte
to_lower s = map lower_byte s

-- The white space of one byte, of two bytes and of three.
abbrev ascii_space : ℕ → Bool
ascii_space a = nat_eqb a 32 || (leb 9 a && leb a 13)

abbrev space2 : ℕ → ℕ → Bool
space2 a b = nat_eqb a 0xC2 && (nat_eqb b 0x85 || nat_eqb b 0xA0)

abbrev space3 : ℕ → ℕ → ℕ → Bool
space3 a b c =
    (nat_eqb a 0xE1 && nat_eqb b 0x9A && nat_eqb c 0x80)
    || (nat_eqb a 0xE2
        && nat_eqb b 0x80
        && ((leb 0x80 c && leb c 0x8A) || nat_eqb c 0xA8 || nat_eqb c 0xA9 || nat_eqb c 0xAF))
    || (nat_eqb a 0xE2 && nat_eqb b 0x81 && nat_eqb c 0x9F)
    || (nat_eqb a 0xE3 && nat_eqb b 0x80 && nat_eqb c 0x80)

-- How many bytes of white space a string begins with: those of its first character.
space_width : GoString → ℕ
space_width [] = 0
space_width (a ∷ []) = if ascii_space a then 1 else 0
space_width (a ∷ b ∷ []) = if ascii_space a then 1 else if space2 a b then 2 else 0
space_width (a ∷ b ∷ c ∷ s) =
    if ascii_space a then 1 else if space2 a b then 2 else if space3 a b c then 3 else 0

-- The same of a string that is read from its end.
end_width : GoString → ℕ
end_width [] = 0
end_width (a ∷ []) = if ascii_space a then 1 else 0
end_width (b ∷ a ∷ []) = if ascii_space b then 1 else if space2 a b then 2 else 0
end_width (c ∷ b ∷ a ∷ s) =
    if ascii_space c then 1 else if space2 b c then 2 else if space3 a b c then 3 else 0

-- Drops the bytes that are left of a white space, and then further white space.
strip : (GoString → ℕ) → ℕ → GoString → GoString
strip width skip [] = []
strip width (suc skip) (a ∷ s) = strip width skip s
strip width zero (a ∷ s) = elim (width (a ∷ s)) [ zero ↦ a ∷ s | suc skip ↦ strip width skip s ]

unfoldable pub trim_space : GoString → GoString
unfolding strip space_width end_width
trim_space s = reverse (strip end_width 0 (reverse (strip space_width 0 s)))
