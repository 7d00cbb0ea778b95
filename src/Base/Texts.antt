-- ===== src/Base/Texts.antt =====
-- The functions of Go's `strings` package that the program uses, on Unicode text.
use Prim.Native.Nat.{ℕ, ◌+◌, Ordering}
use Prim.Native.Char.{Char, code}
use Prim.Native.String.{String, [], ◌∷◌, ◌++◌, compare}
use mathlib.Core.Bool.{Bool, ◌&&◌, ◌||◌}
use mathlib.Core.List
use mathlib.Core.Path.{◌≡◌, refl}
use ghyll.Base.Tests.{leb, nat_eq, ◌==◌, string_key, if◌then◌else◌}

-- `unicode.IsSpace`
unfoldable pub is_space : ℕ → Bool
is_space c =
    (leb 9 c && leb c 13)
    || nat_eq c 0x20
    || nat_eq c 0x85
    || nat_eq c 0xa0
    || nat_eq c 0x1680
    || (leb 0x2000 c && leb c 0x200a)
    || nat_eq c 0x2028
    || nat_eq c 0x2029
    || nat_eq c 0x202f
    || nat_eq c 0x205f
    || nat_eq c 0x3000

unfoldable pub trim_left : String → String
unfolding is_space
trim_left [] = []
trim_left (c ∷ s) = let rest = trim_left s in if is_space (code c) then rest else c ∷ s

unfoldable pub trim_right : String → String
unfolding is_space
trim_right [] = []
trim_right (c ∷ s) =
    let rest = trim_right s in if is_space (code c) && rest == "" then "" else c ∷ rest

-- `strings.TrimSpace`
unfoldable pub trim_space : String → String
unfolding trim_left trim_right
trim_space s = trim_right (trim_left s)

-- `strings.TrimSpace(s) == ""`
unfoldable pub is_blank : String → Bool
unfolding trim_space
is_blank s = trim_space s == ""

-- `unicode.ToLower` as far as its result is an ASCII character, the only letters that the program
-- compares lowered text with: U+0130 and U+212A are the letters beyond ASCII that become one.
unfoldable pub to_lower : ℕ → ℕ
to_lower c =
    if leb b'A' c && leb c b'Z'
    then c + 32
    else if nat_eq c 0x130
    then b'i'
    else if nat_eq c 0x212a
    then b'k'
    else c

-- The code points of a text.
abbrev pub codes : String → List.List ℕ
codes [] = List.[]
codes (c ∷ s) = List.◌∷◌ (code c) (codes s)

abbrev pub same_codes : List.List ℕ → List.List ℕ → Bool
same_codes List.[] List.[] = Bool.true
same_codes (List.◌∷◌ a as') (List.◌∷◌ b bs) = nat_eq a b && same_codes as' bs
same_codes _ _ = Bool.false

-- `len(s)`: the bytes of the text in UTF-8.
abbrev pub byte_length : String → ℕ
byte_length [] = 0
byte_length (c ∷ s) =
    let n = code c in
    let width =
      if leb n 0x7f then 1 else if leb n 0x7ff then 2 else if leb n 0xffff then 3 else 4 in
    width + byte_length s

-- `strings.ReplaceAll(s, "_", "-")` on a code point.
abbrev pub dashed : ℕ → ℕ
dashed c = if nat_eq c b'_' then b'-' else c

-- `s < t`, which Go decides byte by byte: the order of the code points, in UTF-8.
abbrev pub text_ltb : String → String → Bool
text_ltb s t = elim (compare s t) [ Ordering.lt ↦ Bool.true | _ ↦ Bool.false ]

-- `fmt.Sprintf` where it only joins texts.
abbrev pub concat : List.List String → String
concat List.[] = ""
concat (List.◌∷◌ s ss) = s ++ concat ss

-- `strings.HasPrefix(s, prefix)`
unfoldable pub has_prefix : String → String → Bool
has_prefix s [] = Bool.true
has_prefix [] (c ∷ p) = Bool.false
has_prefix (d ∷ s) (c ∷ p) = nat_eq (code d) (code c) && has_prefix s p

-- `strings.Contains(s, part)`
unfoldable pub has_text : String → String → Bool
unfolding has_prefix
has_text [] part = has_prefix [] part
has_text (c ∷ s) part = has_prefix (c ∷ s) part || has_text s part

abbrev pub same_texts : List.List String → List.List String → Bool
same_texts List.[] List.[] = Bool.true
same_texts (List.◌∷◌ s ss) (List.◌∷◌ t ts) = s == t && same_texts ss ts
same_texts _ _ = Bool.false

abbrev pub put_first : Char → List.List String × String → List.List String × String
put_first c (lines, rest) =
    if nat_eq (code c) b'\n'
    then (List.◌∷◌ "" lines, rest)
    else elim lines [ List.[] ↦ (List.[], c ∷ rest) | List.◌∷◌ l ls ↦ (List.◌∷◌ (c ∷ l) ls, rest) ]

-- The lines of a text that end with a line break, without it, and what follows the last.
unfoldable pub split_lines : String → List.List String × String
split_lines [] = (List.[], "")
split_lines (c ∷ s) = put_first c (split_lines s)

-- `^[a-z][a-z0-9-]*$`, the pattern of finding types.
abbrev pub is_lower : ℕ → Bool
is_lower c = leb b'a' c && leb c b'z'

abbrev pub is_slug_rest : String → Bool
is_slug_rest [] = Bool.true
is_slug_rest (c ∷ s) =
    let n = code c in (is_lower n || (leb b'0' n && leb n b'9') || nat_eq n b'-') && is_slug_rest s

abbrev pub is_slug : String → Bool
is_slug [] = Bool.false
is_slug (c ∷ s) = is_lower (code c) && is_slug_rest s

trims : trim_space " \ta b \n" ≡ "a b"
unfolding trim_space
trims = refl
