-- ===== src/Base/Breaks.antt =====
-- Texts put together from lines are split into these lines again.
use Prim.Native.Char.{Char, code}
use Prim.Native.String.{String, [], ◌∷◌, ◌++◌}
use Prim.Native.String.append
use mathlib.Core.Bool.{Bool, false, ◌||◌}
use mathlib.Core.Path.{◌≡◌, refl, ap, ◌∙◌}
use mathlib.Core.List
use native.Mathlib.Omega.{arith}
use ghyll.Base.Tests.{nat_eq}
use ghyll.Base.Texts.{split_lines, put_first}

-- The text has a line break.
abbrev pub has_break : String → Bool
has_break [] = false
has_break (c ∷ s) = nat_eq (code c) b'\n' || has_break s

put_first-rest :
    (c : Char) (s : String)
    → nat_eq (code c) b'\n' ≡ false
    → put_first c (List.[], s) ≡ (List.[], c ∷ s)
put_first-rest c s h = rw h refl

put_first-line :
    (c : Char) (l : String) (ls : List.List String) (rest : String)
    → nat_eq (code c) b'\n' ≡ false
    → put_first c (List.◌∷◌ l ls, rest) ≡ (List.◌∷◌ (c ∷ l) ls, rest)
put_first-line c l ls rest h = rw h refl

has_break-head : (c : Char) (s : String) → has_break (c ∷ s) ≡ false → nat_eq (code c) b'\n' ≡ false
has_break-head c s h = ground (arith, h)

has_break-tail : (c : Char) (s : String) → has_break (c ∷ s) ≡ false → has_break s ≡ false
has_break-tail c s h = ground (arith, h)

pub split_lines-rest : (s : String) → has_break s ≡ false → split_lines s ≡ (List.[], s)
unfolding split_lines
split_lines-rest [] h = refl
split_lines-rest (c ∷ s) h =
    ap (put_first c) (split_lines-rest s (has_break-tail c s h))
    ∙ put_first-rest c s (has_break-head c s h)

pub split_lines-append :
    (s t : String)
    → has_break s ≡ false
    → split_lines (s ++ ("\n" ++ t)) ≡ (List.◌∷◌ s (split_lines t).0, (split_lines t).1)
unfolding split_lines
split_lines-append [] t h =
    ap split_lines (append.nil ("\n" ++ t) ∙ append.cons "\n" [] t ∙ ap (◌∷◌ "\n") (append.nil t))
split_lines-append (c ∷ s) t h =
    ap split_lines (append.cons c s ("\n" ++ t))
    ∙ ap (put_first c) (split_lines-append s t (has_break-tail c s h))
    ∙ put_first-line c s (split_lines t).0 (split_lines t).1 (has_break-head c s h)
