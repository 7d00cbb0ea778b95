-- ===== src/PathGlob.antt =====
-- internal/pathglob/pathglob.go: paths matched by patterns in which `**` stands for any run of
-- segments. `path.Match` is a parameter: whether a pattern with no `**` matches, `none` where the
-- pattern is malformed.
pub mod Search
pub mod Laws
mod Examples
use Prim.Native.Char.{Char, code}
use Prim.Native.String as Text
use Prim.Native.String.{◌++◌ as ◌+++◌}
use ghyll.Base.{
  ℕ, zero, suc, String, Bool, true, false, ◌&&◌, ◌||◌, Option, none, some, List, [], ◌∷◌, ◌++◌,
  nat_eq, ◌==◌, string_key, codes, length, if◌then◌else◌,
}

-- `path.Match`
abbrev pub PathMatch : Type 0
PathMatch = String → String → Option Bool

abbrev is_star : Char → Bool
is_star c = nat_eq (code c) b'*'

abbrev pub put_before : Char → Option (String × String) → Option (String × String)
put_before c none = none
put_before c (some (before, after)) = some (Text.◌∷◌ c before, after)

-- `strings.Index(pattern, "**")`: what stands before the first `**` and after it, if there is one.
unfoldable pub cut_stars : String → Option (String × String)
cut_stars Text.[] = none
cut_stars (Text.◌∷◌ c Text.[]) = none
cut_stars (Text.◌∷◌ c (Text.◌∷◌ d s)) =
    let later = cut_stars (Text.◌∷◌ d s) in
    if is_star c && is_star d then some ("", s) else put_before c later

-- `strings.TrimSuffix(s, "/")`
unfoldable pub trim_end_slash : String → String
trim_end_slash Text.[] = Text.[]
trim_end_slash (Text.◌∷◌ c s) =
    let rest = trim_end_slash s in if nat_eq (code c) b'/' && s == "" then "" else Text.◌∷◌ c rest

-- `strings.TrimPrefix(s, "/")`
unfoldable pub trim_start_slash : String → String
trim_start_slash Text.[] = Text.[]
trim_start_slash (Text.◌∷◌ c s) = if nat_eq (code c) b'/' then s else Text.◌∷◌ c s

-- A character in front of the first segment, and a slash in front of all.
abbrev pub put_char : Char → List String → List String
put_char c [] = Text.◌∷◌ c Text.[] ∷ []
put_char c (s ∷ ss) = Text.◌∷◌ c s ∷ ss

-- `strings.Split(s, "/")`
unfoldable pub split_slashes : String → List String
split_slashes Text.[] = "" ∷ []
split_slashes (Text.◌∷◌ c s) =
    let rest = split_slashes s in if nat_eq (code c) b'/' then "" ∷ rest else put_char c rest

-- `strings.Join(segments, "/")`
unfoldable pub join_slashes : List String → String
join_slashes [] = ""
join_slashes (s ∷ []) = s
join_slashes (s ∷ t ∷ ss) = s +++ ("/" +++ join_slashes (t ∷ ss))

-- The segments of a name.
unfoldable pub segments_of : String → List String
unfolding split_slashes
segments_of name = if name == "" then [] else split_slashes name

-- `err == nil && ok`
abbrev pub is_yes : Option Bool → Bool
is_yes none = false
is_yes (some b) = b

-- The loop over `j`: some tail of the segments passes.
unfoldable pub any_tail : (List String → Bool) → List String → Bool
any_tail test [] = test []
any_tail test (s ∷ ss) = let later = any_tail test ss in test (s ∷ ss) || later

-- The loop over `i`: some head of the segments, after the ones before, passes the one test and some
-- tail of the rest the other.
unfoldable pub any_split :
    (List String → Bool) → (List String → Bool) → List String → List String → Bool
unfolding any_tail
any_split head tail before [] = head before && any_tail tail []
any_split head tail before (s ∷ ss) =
    let later = any_split head tail (before ++ s ∷ []) ss in
    (head before && any_tail tail (s ∷ ss)) || later

module _ (path_match : PathMatch) where
  -- `matchSegments`
  unfoldable pub match_segments : String → String → Bool
  match_segments pattern name =
      if pattern == "" then name == "" else is_yes (path_match pattern name)

  -- The body of the inner loop, and `matchRecursive` where it is called with what stands before
  -- and after the first `**`; on fuel for the suffixes.
  unfoldable pub match_cut : ℕ → Option (String × String) → String → String → Bool
  unfolding match_segments any_split segments_of join_slashes trim_end_slash trim_start_slash
      cut_stars
  match_cut fuel none pattern name = match_segments pattern name
  match_cut zero (some (before, after)) pattern name = false
  match_cut (suc fuel) (some (before, after)) pattern name =
      let prefix = trim_end_slash before in
      let suffix = trim_start_slash after in
      any_split (λ ss. match_segments prefix (join_slashes ss))
        (λ ss. match_cut fuel (cut_stars suffix) suffix (join_slashes ss)) [] (segments_of name)

  unfoldable pub match_other : Option (String × String) → String → String → Bool
  unfolding match_cut
  match_other none pattern name = is_yes (path_match pattern name)
  match_other (some parts) pattern name =
      match_cut (length (codes pattern)) (some parts) pattern name

  -- `Match`
  unfoldable pub glob_match : String → String → Bool
  unfolding match_other cut_stars
  glob_match pattern name = pattern == name || match_other (cut_stars pattern) pattern name
