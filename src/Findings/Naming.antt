-- ===== src/Findings/Naming.antt =====
-- runner/findings.go: the names of the statuses, as they are read.
use ghyll.Base.{
  String, Bool, ◌≡◌, ◌↔◌, refl, true, false, map, codes, same_codes, same_codes_apart, to_lower,
  dashed, trim_space, Result, ok, err, arith, if◌then◌else◌,
}
use ghyll.Arrow.{FindingStatus}
use ghyll.Findings.{status_text, is_known_finding_status}

-- The normalisation of `ParseFindingStatus`, and a comparison with a name. No character is a space
-- only before or only after it is lowered, so that the text is trimmed first.
unfoldable pub is_status_name : String → String → Bool
unfolding trim_space to_lower
is_status_name s name = same_codes (map dashed (map to_lower (codes (trim_space s)))) (codes name)

pub data StatusError : Type 0 where
  unknown_status : String → StatusError

-- `ParseFindingStatus`
unfoldable pub parse_finding_status : String → Result StatusError FindingStatus
unfolding is_status_name
parse_finding_status s =
    if is_status_name s "open"
    then ok FindingStatus.still_open
    else if is_status_name s "running"
    then ok FindingStatus.running
    else if is_status_name s "resolved"
    then ok FindingStatus.resolved
    else if is_status_name s "accepted-risk"
    then ok FindingStatus.accepted_risk
    else if is_status_name s "unevaluated"
    then ok FindingStatus.unevaluated
    else err (unknown_status s)

-- A text has one name at most.
apart :
    (s a b : String)
    → is_status_name s a ≡ true
    → same_codes (codes a) (codes b) ≡ false
    → is_status_name s b ≡ false
unfolding is_status_name
apart s a b h k =
    same_codes_apart (map dashed (map to_lower (codes (trim_space s)))) (codes a) (codes b) h k

read_name :
    (s : String) (st : FindingStatus)
    → is_known_finding_status st ≡ true
    → is_status_name s (status_text st) ≡ true
    → parse_finding_status s ≡ ok st
unfolding parse_finding_status is_known_finding_status status_text
read_name s FindingStatus.still_open k h = rw h refl
read_name s FindingStatus.running k h = rw (apart s "running" "open" h refl, h) refl
read_name s FindingStatus.resolved k h =
    rw (apart s "resolved" "open" h refl, apart s "resolved" "running" h refl, h) refl
read_name s FindingStatus.accepted_risk k h =
    let other = apart s "accepted-risk" in
    rw (other "open" h refl, other "running" h refl, other "resolved" h refl, h) refl
read_name s FindingStatus.unevaluated k h =
    let other = apart s "unevaluated" in
    rw
      (
        other "open" h refl,
        other "running" h refl,
        other "resolved" h refl,
        other "accepted-risk" h refl,
        h,
      )
      refl
read_name s (FindingStatus.unknown n) k h = cc

named :
    (s : String) (st : FindingStatus)
    → parse_finding_status s ≡ ok st
    → is_status_name s (status_text st) ≡ true
unfolding parse_finding_status is_status_name status_text
named s FindingStatus.still_open h = ground (arith, h)
named s FindingStatus.running h = ground (arith, h)
named s FindingStatus.resolved h = ground (arith, h)
named s FindingStatus.accepted_risk h = ground (arith, h)
named s FindingStatus.unevaluated h = ground (arith, h)
named s (FindingStatus.unknown n) h = absurd (ground (arith, h))

-- A text is read as a status exactly if the status is one of the five and the text is its name, up
-- to white space around it, upper and lower case, and underscores for dashes.
pub parse_finding_status-status_text :
    (s : String) (st : FindingStatus)
    → (parse_finding_status s ≡ ok st)
      ↔ ((is_known_finding_status st ≡ true) × (is_status_name s (status_text st) ≡ true))
unfolding parse_finding_status is_known_finding_status
parse_finding_status-status_text s st =
    (λ h. (ground (arith, h), named s st h), λ h. read_name s st h.0 h.1)
