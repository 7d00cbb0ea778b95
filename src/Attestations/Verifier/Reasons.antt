-- ===== src/Attestations/Verifier/Reasons.antt =====
-- The tests behind each reason for an issue, against the checks of the store.
use ghyll.Base.{
  String, ◌≡◌, ◌↔◌, refl, ap, ◌∙◌, Bool, true, false, List, [], ◌∷◌, arith, ◌++◌, ◌>>◌, refuse, ok,
  string_key,
}
use ghyll.Basis.{AttestationVerdict, pass, fail, insufficient_basis, other}
use ghyll.Attestations.{
  Rules, Check, AttestationError, AttestationKind, depth_type, on_the_spot, other_kind, check_kind,
  check_verdict, check_apart,
}
use ghyll.Attestations.Verifier.{Reason, note, kind_issues, verdict_issues, is_side}

pub none_left : (xs ys : List Reason) → xs ++ ys ≡ [] → (xs ≡ []) × (ys ≡ [])
none_left [] ys h = (refl, h)
none_left (x ∷ xs) ys h = cc

pub none_both : (xs ys : List Reason) → xs ≡ [] → ys ≡ [] → xs ++ ys ≡ []
none_both xs ys h k = ap (λ zs. zs ++ ys) h ∙ k

pub unnoted : (b : Bool) (reason : Reason) → note b reason ≡ [] → b ≡ false
unnoted false reason h = refl
unnoted true reason h = cc

pub kind_issues_iff :
    (k : AttestationKind) (c : String) → (kind_issues k c ≡ []) ↔ (check_kind k c ≡ ok tt)
unfolding kind_issues check_kind
kind_issues_iff depth_type c = (λ h. ground (arith, h), λ h. ground (arith, h))
kind_issues_iff on_the_spot c = (λ h. ground (arith, h), λ h. ground (arith, h))
kind_issues_iff (other_kind s) c = (λ h. cc, λ h. cc)

pub verdict_issues_iff :
    (v : AttestationVerdict) → (verdict_issues v ≡ []) ↔ (check_verdict v ≡ ok tt)
unfolding verdict_issues check_verdict
verdict_issues_iff pass = (λ h. refl, λ h. refl)
verdict_issues_iff fail = (λ h. refl, λ h. refl)
verdict_issues_iff insufficient_basis = (λ h. refl, λ h. refl)
verdict_issues_iff (other s) = (λ h. cc, λ h. cc)

pub then_ok : (x y : Check) → x ≡ ok tt → y ≡ ok tt → (x >> y) ≡ ok tt
then_ok x y h k = ap (λ z. z >> y) h ∙ k

pub unrefused : (b : Bool) (e : AttestationError) → b ≡ false → refuse b e ≡ ok tt
unrefused b e h = ground (arith, h)

module _ (rules : Rules) where
  pub is_side_iff :
      (role side : String)
      → (is_side rules role side ≡ false) ↔ (check_apart rules role side ≡ ok tt)
  unfolding is_side check_apart
  is_side_iff role side = (λ h. ground (arith, h), λ h. ground (arith, h))
