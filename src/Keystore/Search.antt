-- ===== src/Keystore/Search.antt =====
-- The loops over the slots of src/keystore.rs: what the searches find, and where a key is placed.
use iso_light_k.Common.{
  ℕ, suc, ◌+◌, ◌≡◌, ◌≢◌, ◌↔◌, inl, inr, refl, sym, ap, ◌∙◌, Bool, true, false, Bool-cases, not,
  ◌&&◌, none, some, Option-cases, List, [], ◌∷◌, get_elem?, arith,
}
use iso_light_k.Keystore.{
  SlotState, empty, provisioned, wiped, PskSlot, SoftKeystore, same_id, is_live, has_id, is_empty,
  is_provisioned, find_index, filled, fill_empty, psk_exists,
}

pub same_id_refl : (id : List ℕ) → same_id id id ≡ true
unfolding same_id
same_id_refl [] = refl
same_id_refl (a ∷ as') = ground (arith, same_id_refl as')

pub find_index-some :
    (test : PskSlot → Bool) (i k : ℕ) (ks : SoftKeystore)
    → find_index test i ks ≡ some k
    → (j : ℕ) × (k ≡ i + j) × ((s : PskSlot) × (get_elem? ks j ≡ some s) × (test s ≡ true))
unfolding find_index
find_index-some test i k [] h = cc
find_index-some test i k (s ∷ ss) h = elim (Bool-cases (test s)) [
  | inl e ↦ (0, ground arith, (s, refl, e))
  | inr e ↦
      let (j, at, held) = find_index-some test (i + 1) k ss (ground arith) in
      (suc j, omega arith, held)
]

-- The driver reports a key exactly when a search for it succeeds.
pub psk_exists-find :
    (ks : SoftKeystore) (id : List ℕ) (i : ℕ)
    → (psk_exists ks id ≡ true) ↔ (find_index (is_live id) i ks ≢ none)
unfolding psk_exists find_index
psk_exists-find [] id i = (λ h. cc, λ h. absurd (h refl))
psk_exists-find (s ∷ ss) id i = elim (Bool-cases (is_live id s)) [
  | inl e ↦ (λ h f. ground arith, λ h. ground arith)
  | inr e ↦ (
    λ h f. (psk_exists-find ss id (i + 1)).0 (ground arith) (ground arith),
    λ h. ground (arith, (psk_exists-find ss id (i + 1)).1 (λ f. h (ground arith))),
  )
]

-- A slot that does not hold an identifier at all does not hold it live.
live_or_not :
    (t : SlotState) (b : Bool) → (not (is_empty t) && b) ≡ false → (is_provisioned t && b) ≡ false
live_or_not empty b h = refl
live_or_not provisioned b h = h
live_or_not wiped b h = refl

pub is_live-has_id : (id : List ℕ) (s : PskSlot) → has_id id s ≡ false → is_live id s ≡ false
is_live-has_id id s h = live_or_not s.state (same_id s.id id) h

-- A search goes past a slot that fails its test, and stops at one that passes.
pub find_index_past :
    (test : PskSlot → Bool) (i : ℕ) (s : PskSlot) (ss : SoftKeystore)
    → test s ≡ false
    → find_index test i (s ∷ ss) ≡ find_index test (i + 1) ss
unfolding find_index
find_index_past test i s ss h = rw (h, find_index)

pub find_index_here :
    (test : PskSlot → Bool) (i : ℕ) (s : PskSlot) (ss : SoftKeystore)
    → test s ≡ true
    → find_index test i (s ∷ ss) ≡ some i
unfolding find_index
find_index_here test i s ss h = rw (h, find_index)

pub find_index-none :
    (test : PskSlot → Bool) (i : ℕ) (s : PskSlot) (ss : SoftKeystore)
    → find_index test i (s ∷ ss) ≡ none
    → (test s ≡ false) × (find_index test (i + 1) ss ≡ none)
find_index-none test i s ss h = elim (Bool-cases (test s)) [
  | inl e ↦ absurd (let stop = find_index_here test i s ss e in cc)
  | inr e ↦ (e, sym (find_index_past test i s ss e) ∙ h)
]

pub fill_empty_here :
    (n s : PskSlot) (ss : SoftKeystore)
    → is_empty s.state ≡ true
    → fill_empty n (s ∷ ss) ≡ some (n ∷ ss)
unfolding fill_empty
fill_empty_here n s ss e = ground arith

pub fill_empty_past :
    (n s : PskSlot) (ss rest : SoftKeystore)
    → is_empty s.state ≡ false
    → fill_empty n ss ≡ some rest
    → fill_empty n (s ∷ ss) ≡ some (s ∷ rest)
unfolding fill_empty
fill_empty_past n s ss rest e q = ground arith

pub fill_empty-none :
    (n s : PskSlot) (ss : SoftKeystore)
    → is_empty s.state ≡ false
    → fill_empty n ss ≡ none
    → fill_empty n (s ∷ ss) ≡ none
unfolding fill_empty
fill_empty-none n s ss e q = ground arith

pub filled_is_live : (id material : List ℕ) → is_live id (filled id material) ≡ true
filled_is_live id material = same_id_refl id

pub fill_empty-lookup :
    (id material : List ℕ) (i : ℕ) (ks ks' : SoftKeystore)
    → find_index (has_id id) i ks ≡ none
    → fill_empty (filled id material) ks ≡ some ks'
    → (j : ℕ) × (find_index (is_live id) i ks' ≡ some (i + j))
      × (get_elem? ks' j ≡ some (filled id material))
fill_empty-lookup id material i [] ks' h f = absurd (unfold fill_empty in cc)
fill_empty-lookup id material i (s ∷ ss) ks' h f = elim (Bool-cases (is_empty s.state)) [
  | inl e ↦
      let new_slot = filled id material in
      let same : some (new_slot ∷ ss) ≡ some ks' = sym (fill_empty_here new_slot s ss e) ∙ f in
      let eq : new_slot ∷ ss ≡ ks' = cc in
      let at : i ≡ i + 0 = omega arith in
      rw (← eq) (
        0,
        find_index_here (is_live id) i new_slot ss (filled_is_live id material) ∙ ap some at,
        refl,
      )
  | inr e ↦ elim (Option-cases (fill_empty (filled id material) ss)) [
    | inl q ↦ absurd (let bad = fill_empty-none (filled id material) s ss e q in cc)
    | inr (rest, q) ↦
        let (fails, left) = find_index-none (has_id id) i s ss h in
        let (j, at, held) = fill_empty-lookup id material (i + 1) ss rest left q in
        let same : some (s ∷ rest) ≡ some ks' =
          sym (fill_empty_past (filled id material) s ss rest e q) ∙ f in
        let eq : s ∷ rest ≡ ks' = cc in
        let shift : (i + 1) + j ≡ i + suc j = omega arith in
        rw (← eq) (
          suc j,
          find_index_past (is_live id) i s rest (is_live-has_id id s fails) ∙ at ∙ ap some shift,
          held,
        )
  ]
]
