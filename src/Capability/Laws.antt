-- ===== src/Capability/Laws.antt =====
-- What a capability allows: exactly what it names, and never more after a delegation.
use iso_light_k.Common.{ℕ, ◌≡◌, ◌≢◌, ◌↔◌, refl, ◌∙◌, true, false, ==_iff, ok, err, bit_and, arith}
use iso_light_k.Common.Bits.{meet_contains_left, meet_contains_right, meet_contains}
use iso_light_k.Capability.{Capability, no_grant_right, null, is_valid_for, derive, zeroize}
use iso_light_k.Capability.Rights
use iso_light_k.Capability.Rights.{contains, restrict}

-- `contains` as an equation between masks.
pub contains_iff : (p r : ℕ) → (contains p r ≡ true) ↔ (bit_and p r ≡ r)
unfolding contains
contains_iff p r = ==_iff (bit_and p r) r

-- A capability is accepted for an endpoint and rights exactly when its token is not 0, it names
-- that endpoint, and its rights contain the required ones.
pub is_valid_for_iff :
    (c : Capability) (ep req : ℕ)
    → (is_valid_for c ep req ≡ true)
      ↔ ((c.token ≢ 0) × (c.endpoint_id ≡ ep) × (contains c.rights req ≡ true))
unfolding is_valid_for contains
is_valid_for_iff c ep req = ground arith

pub restrict-contains :
    (p s r : ℕ)
    → (contains (restrict p s) r ≡ true) ↔ ((contains p r ≡ true) × (contains s r ≡ true))
unfolding restrict
restrict-contains p s r = (
  λ h.
      let e = (contains_iff (bit_and p s) r).0 h in
      (
        (contains_iff p r).1 (meet_contains_left p s r e),
        (contains_iff s r).1 (meet_contains_right p s r e),
      ),
  λ h.
      (contains_iff (bit_and p s) r).1
        (meet_contains p s r ((contains_iff p r).0 h.0) ((contains_iff s r).0 h.1)),
)

-- A capability that `derive` gives is accepted for an endpoint and rights exactly when its parent
-- is and the rights lie in the subset given.
pub derive_attenuates :
    (c d : Capability) (subset ep req : ℕ)
    → derive c subset ≡ ok d
    → (is_valid_for d ep req ≡ true)
      ↔ ((is_valid_for c ep req ≡ true) × (contains subset req ≡ true))
unfolding derive
derive_attenuates c d subset ep req h = ground (
  arith,
  is_valid_for_iff c ep req,
  is_valid_for_iff d ep req,
  restrict-contains c.rights subset req,
)

-- A capability delegates exactly when it holds GRANT, and the refusal is `NoGrantRight`.
pub derive_needs_grant :
    (c : Capability) (subset : ℕ)
    → (derive c subset ≡ err no_grant_right) ↔ (contains c.rights Rights.grant ≡ false)
unfolding derive
derive_needs_grant c subset = ground arith

-- A chain of delegations, each step given its subset.
pub data Derived (c : Capability) : Capability → Type 0 where
  here : Derived c c
  next : {d e : Capability} (subset : ℕ) → Derived c d → derive d subset ≡ ok e → Derived c e

-- However often a capability is delegated on, what the last one is accepted for the first one is
-- accepted for, and both carry the same token.
pub Derived-attenuates :
    {c d : Capability} (ep req : ℕ)
    → Derived c d
    → is_valid_for d ep req ≡ true
    → (is_valid_for c ep req ≡ true) × (c.token ≡ d.token)
Derived-attenuates ep req here h = (h, refl)
Derived-attenuates {c} {d = e} ep req (next {d = d} subset r step) h =
    let above = Derived-attenuates ep req r ((derive_attenuates d e subset ep req step).0 h).0 in
    (above.0, above.1 ∙ token-derive d e subset step)
  where
    token-derive : (d e : Capability) (s : ℕ) → derive d s ≡ ok e → d.token ≡ e.token
    token-derive d e s p = unfold derive in ground arith

-- The null capability and a zeroized one are refused for every endpoint and every rights.
pub zeroize_denied :
    (c : Capability) (ep req : ℕ)
    → (is_valid_for null ep req ≡ false) × (is_valid_for (zeroize c) ep req ≡ false)
unfolding is_valid_for zeroize
zeroize_denied c ep req = (refl, refl)
