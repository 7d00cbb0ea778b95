-- ===== src/Depth/Ladder.antt =====
-- runner/depthladder.go: a project's labels for the depth ranks.
pub mod Laws
mod Examples
use Prim.Native.String as Text
use Prim.Native.Char.{code}
use ghyll.Base.{
  ℕ, ◌+◌, ℤ, pos, pos_part, String, ◌≡◌, ◌↔◌, refl, Bool, true, false, ◌&&◌, ◌||◌, not, Option,
  none, some, List, [], ◌∷◌, ◌++◌, map, arith, subst, leb, nat_eq, nat_eq_iff, Key, ◌==◌,
  string_key, get_elem?, length, codes, same_codes, same_codes_iff, to_lower, trim_space, is_lower,
  Result, ok, err, ◌>>=◌, ◌>>◌, refuse, if◌then◌else◌,
}
use ghyll.Base.Map.{Map, lookup, insert, member}
use ghyll.Depth.{is_known_depth_rank}

-- The key of a label is its lowered text, as code points.
abbrev pub DepthKey : Type 0
DepthKey = List ℕ

instance abbrev pub depth_key : Key DepthKey
depth_key = record { same = same_codes; same_iff = same_codes_iff }

-- `strings.ToLower` on a text.
unfoldable pub lowered : String → DepthKey
unfolding to_lower
lowered s = map to_lower (codes s)

-- `depthLabelPattern`
abbrev pub is_letter : ℕ → Bool
is_letter n = is_lower n || (leb b'A' n && leb n b'Z')

abbrev pub is_label_char : ℕ → Bool
is_label_char n = is_letter n || (leb b'0' n && leb n b'9') || nat_eq n b'-'

abbrev pub is_label_rest : String → Bool
is_label_rest Text.[] = true
is_label_rest (Text.◌∷◌ c s) = is_label_char (code c) && is_label_rest s

unfoldable pub is_depth_label : String → Bool
is_depth_label Text.[] = false
is_depth_label (Text.◌∷◌ c s) = is_letter (code c) && is_label_rest s

pub data LadderError : Type 0 where
  label_empty : ℕ → LadderError
  label_malformed label_repeated : ℕ → String → LadderError
  not_a_label : String → LadderError

-- `DepthLadder`
pub record DepthLadder : Type 0 where
  pub labels : List String
  pub by_label : Map DepthKey ℤ

-- One round of the loop of `NewDepthLadder`; the tier is the number of the labels before it.
unfoldable pub add_label : DepthLadder → String → Result LadderError DepthLadder
unfolding trim_space lowered is_depth_label
add_label l raw = do
  let tier = length l.labels
  let trimmed = trim_space raw
  refuse (trimmed == "") (label_empty tier)
  refuse (not (is_depth_label trimmed)) (label_malformed tier trimmed)
  refuse (member (lowered trimmed) l.by_label) (label_repeated tier trimmed)
  ok (record {
    labels = l.labels ++ trimmed ∷ [];
    by_label = insert (lowered trimmed) (pos tier) l.by_label;
  })

unfoldable pub add_labels : DepthLadder → List String → Result LadderError DepthLadder
unfolding add_label
add_labels l [] = ok l
add_labels l (raw ∷ raws) = add_label l raw >>= λ l'. add_labels l' raws

-- `NewDepthLadder`, of four labels.
unfoldable pub new_depth_ladder : String → String → String → String → Result LadderError DepthLadder
unfolding add_labels
new_depth_ladder a b c d = add_labels (record { labels = []; by_label = [] }) (a ∷ b ∷ c ∷ d ∷ [])

-- `NewDefaultDepthLadder`, which panics on an error.
unfoldable pub new_default_depth_ladder : Result LadderError DepthLadder
unfolding new_depth_ladder
new_default_depth_ladder = new_depth_ladder "NONE" "SHALLOW" "MOCKED" "REALISTIC"

-- `Label`; `none` stands for the text that marks an invalid rank.
unfoldable pub label : DepthLadder → ℤ → Option String
unfolding is_known_depth_rank
label l r = if is_known_depth_rank r then get_elem? l.labels (pos_part r) else none

abbrev pub found_rank : Option ℤ → String → Result LadderError ℤ
found_rank (some r) s = ok r
found_rank none s = err (not_a_label s)

-- `ParseDepthRank`
unfoldable pub parse_depth_rank : DepthLadder → String → Result LadderError ℤ
unfolding lowered trim_space
parse_depth_rank l s = found_rank (lookup (lowered (trim_space s)) l.by_label) s
