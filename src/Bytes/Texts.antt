-- ===== src/Bytes/Texts.antt =====
-- Texts of ASCII characters, and the functions of the package strings that the program uses on them:
-- ToLower, TrimSpace and Contains.
use Prim.Native.Char.{code}
use Prim.Native.String.{String}
use colossus_x.Prelude.{
  ℕ, ◌+◌, Bool, true, false, ◌&&◌, ◌||◌, [], ◌∷◌, map, leb, ◌==◌, if◌then◌else◌,
}
use colossus_x.Bytes.{Bytes}

-- the bytes of a literal
abbrev pub codes : String → Bytes
codes String.[] = []
codes (String.◌∷◌ c s) = code c ∷ codes s

-- ToLower
abbrev pub to_lower : Bytes → Bytes
to_lower = map λ b. if leb b'A' b && leb b b'Z' then b + 32 else b

abbrev is_space : ℕ → Bool
is_space b = (leb 9 b && leb b 13) || (b == b' ')

abbrev pub reverse_onto : Bytes → Bytes → Bytes
reverse_onto [] out = out
reverse_onto (b ∷ r) out = reverse_onto r (b ∷ out)

abbrev pub trim_front : Bytes → Bytes
trim_front [] = []
trim_front (b ∷ r) = let rest = trim_front r in if is_space b then rest else b ∷ r

-- TrimSpace
abbrev pub trim_space : Bytes → Bytes
trim_space s = reverse_onto (trim_front (reverse_onto (trim_front s) [])) []

abbrev pub has_prefix : Bytes → Bytes → Bool
has_prefix s [] = true
has_prefix [] (p ∷ prefix) = false
has_prefix (b ∷ s) (p ∷ prefix) = b == p && has_prefix s prefix

-- Contains
abbrev pub contains : Bytes → Bytes → Bool
contains [] part = has_prefix [] part
contains (b ∷ s) part = has_prefix (b ∷ s) part || contains s part
