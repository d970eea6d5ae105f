-- ===== src/Capability/Space/Find.antt =====
-- The search by token of src/capability.rs: it finds the first match, or none is there.
use iso_light_k.Common.{
  ℕ, zero, suc, ◌+◌, ◌<◌, ◌≡◌, ◌≢◌, ◌↔◌, ◌⊎◌, inl, inr, refl, sym, ◌∙◌, Option, none, some,
  Option-cases, List, [], ◌∷◌, get_elem?, arith,
}
use iso_light_k.Capability.{Capability}
use iso_light_k.Capability.Space.{CapabilitySpace, get, select, find_from, find_by_token}
use iso_light_k.Capability.Space.Laws.{get_held}

-- A match of the search: the slot holds a capability with that token, which is not 0.
abbrev pub Matches : ℕ → Option Capability → Type 0
Matches token none = ⊥
Matches token (some c) = (c.token ≡ token) × (token ≢ 0)

select_lem :
    (token i k : ℕ) (slot : Option Capability)
    → (select token i slot (some k) ≡ some k)
      × (((select token i slot none ≡ some i) × Matches token slot)
          ⊎ ((select token i slot none ≡ none) × ¬ (Matches token slot)))
unfolding select
select_lem token i k none = (refl, inr (refl, λ h. h))
select_lem token i k (some c) = ground arith

find_from-some :
    (token i k : ℕ) (slots : List (Option Capability)) → find_from token i slots (some k) ≡ some k
unfolding find_from
find_from-some token i k [] = refl
find_from-some token i k (slot ∷ slots) =
    rw ((select_lem token i k slot).0) (find_from-some token (i + 1) k slots)

-- Slot `j` is the first that matches, or none does (`none`).
abbrev pub NoMatch : ℕ → List (Option Capability) → ℕ → Type 0
NoMatch token slots bound =
    (m : ℕ) (slot : Option Capability)
    → m < bound
    → get_elem? slots m ≡ some slot
    → ¬ (Matches token slot)

NoMatch-cons :
    (token : ℕ) (slot : Option Capability) (slots : List (Option Capability)) (bound : ℕ)
    → ¬ (Matches token slot)
    → NoMatch token slots bound
    → NoMatch token (slot ∷ slots) (suc bound)
NoMatch-cons token slot slots bound other rest zero t l e =
    let same : slot ≡ t = cc in rw (← same) other
NoMatch-cons token slot slots bound other rest (suc m) t l e = rest m t (omega arith) e

find_from_first :
    (token i k : ℕ) (slots : List (Option Capability))
    → find_from token i slots none ≡ some k
    → (j : ℕ) × (k ≡ i + j)
      × ((slot : Option Capability) × (get_elem? slots j ≡ some slot) × Matches token slot)
      × NoMatch token slots j
unfolding find_from
find_from_first token i k [] h = cc
find_from_first token i k (slot ∷ slots) h = elim (select_lem token i 0 slot).1 [
  | inl (e, match) ↦
      let found = find_from-some token (i + 1) i slots in
      let same : i ≡ k = some_eq (sym found ∙ (rw e at h)) in
      (0, omega arith, (slot, refl, match), λ m t l g. elim l [ ])
  | inr (e, other) ↦
      let (j, at, held, before) = find_from_first token (i + 1) k slots (rw e at h) in
      (suc j, omega arith, held, NoMatch-cons token slot slots j other before)
]
  where
    some_eq : {a b : ℕ} → some a ≡ some b → a ≡ b
    some_eq p = cc

find_from-none :
    (token i : ℕ) (slots : List (Option Capability)) (bound : ℕ)
    → find_from token i slots none ≡ none
    → NoMatch token slots bound
unfolding find_from
find_from-none token i [] bound h = λ m t l g. absurd (cc)
find_from-none token i (slot ∷ slots) zero h = λ m t l g. elim l [ ]
find_from-none token i (slot ∷ slots) (suc bound) h = elim (select_lem token i 0 slot).1 [
  | inl (e, match) ↦ absurd (clash (find_from-some token (i + 1) i slots) (rw e at h))
  | inr (e, other) ↦
      NoMatch-cons token slot slots bound other
        (find_from-none token (i + 1) slots bound (rw e at h))
]
  where
    clash : {o : Option ℕ} {k : ℕ} → o ≡ some k → o ≡ none → ⊥
    clash p q = cc

-- Where the search by token gives a slot, it is the first one whose capability has the token, and
-- the token is not 0.
pub find_by_token_first :
    (s : CapabilitySpace) (token k : ℕ)
    → find_by_token s token ≡ some k
    → ((c : Capability) × (get s k ≡ some c) × (c.token ≡ token))
      × (token ≢ 0)
      × ((m : ℕ) (d : Capability) → m < k → get s m ≡ some d → d.token ≢ token)
unfolding find_by_token
find_by_token_first s token k h =
    let (j, at, (slot, held, match), before) = find_from_first token 0 k s.slots h in
    let same : k ≡ j = omega arith in
    rw same (
      (holder j slot held match).0,
      (holder j slot held match).1,
      λ m d l g e. before m (some d) l (get_held s m d g) (e, (holder j slot held match).1),
    )
  where
    holder :
        (j : ℕ) (slot : Option Capability)
        → get_elem? s.slots j ≡ some slot
        → Matches token slot
        → ((c : Capability) × (get s j ≡ some c) × (c.token ≡ token)) × (token ≢ 0)
    holder j none g m = absurd m
    holder j (some c) g m = ((c, unfold get in rw (g, get) refl, m.0), m.1)

-- The search fails for a token other than 0 exactly when no slot holds a capability with it.
pub find_by_token-none :
    (s : CapabilitySpace) (token : ℕ)
    → token ≢ 0
    → (find_by_token s token ≡ none)
      ↔ ((m : ℕ) (d : Capability) → get s m ≡ some d → d.token ≢ token)
find_by_token-none s token nz = (
  λ h m d g e.
      find_from-none token 0 s.slots (suc m) (unfold find_by_token in h) m (some d) (omega arith)
        (get_held s m d g) (e, nz),
  λ other. elim (Option-cases (find_by_token s token)) [
    | inl e ↦ e
    | inr (k, e) ↦ let (c, g, t) = (find_by_token_first s token k e).0 in absurd (other k c g t)
  ],
)
