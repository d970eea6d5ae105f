-- ===== src/Keystore/Destroy.antt =====
-- Wiping of src/keystore.rs: in every reachable pool an identifier has one slot, and destroying it
-- removes the key. The identifier of 16 zero bytes, which wiped slots bear, is apart.
use iso_light_k.Common.{
  ℕ, zero, suc, ◌+◌, ◌≤◌, ◌<◌, ◌≡◌, ◌⊎◌, inl, inr, refl, sym, ap, ◌∙◌, Bool, true, false,
  Bool-cases, ◌||◌, ltb, if◌then◌else◌, ◌==◌, none, some, Option-cases, List, [], ◌∷◌, length, set,
  replicate, get_elem?, Result, ok, arith,
}
use iso_light_k.Hmac.{hkdf_extract}
use iso_light_k.Keystore.{
  KeystoreError, HsmError, PskSlot, SoftKeystore, empty_slot, new, zero_id, same_id, has_id,
  is_empty, find_index, find_any_with_id, filled, fill_empty, provision, wiped_slot, wipe_all,
  psk_exists, psk_destroy, psk_hkdf_extract, max_psk_len,
}
use iso_light_k.Keystore.Provision.{has_room, provision_accepted, provision-extract}
use iso_light_k.Keystore.Search.{
  find_index-some, find_index_past, find_index_here, find_index-none, is_live-has_id,
  fill_empty_here, fill_empty_past, fill_empty-none, filled_is_live,
}

same_id-eq : (a b : List ℕ) → same_id a b ≡ true → a ≡ b
unfolding same_id
same_id-eq [] [] h = refl
same_id-eq [] (y ∷ ys) h = cc
same_id-eq (x ∷ xs) [] h = cc
same_id-eq (x ∷ xs) (y ∷ ys) h =
    let head_eq : x ≡ y = ground arith in
    let tail_eq : xs ≡ ys = same_id-eq xs ys (ground arith) in cc

same_id_comm : (a b : List ℕ) → same_id a b ≡ same_id b a
unfolding same_id
same_id_comm [] [] = refl
same_id_comm [] (y ∷ ys) = refl
same_id_comm (x ∷ xs) [] = refl
same_id_comm (x ∷ xs) (y ∷ ys) = let rest = same_id_comm xs ys in ground arith

-- How many slots bear an identifier.
pub holders : List ℕ → SoftKeystore → ℕ
holders id [] = 0
holders id (s ∷ ss) = if has_id id s then suc (holders id ss) else holders id ss

-- Whether an identifier is the one that wiped slots bear.
abbrev pub is_zero_id : List ℕ → Bool
is_zero_id id = same_id zero_id id

pub IsUnique : SoftKeystore → Type 0
IsUnique ks = (id : List ℕ) → is_zero_id id ≡ false → holders id ks ≤ 1

holders-none :
    (id : List ℕ) (i : ℕ) (ks : SoftKeystore)
    → find_index (has_id id) i ks ≡ none
    → holders id ks ≡ 0
unfolding holders
holders-none id i [] h = refl
holders-none id i (s ∷ ss) h =
    let (fails, left) = find_index-none (has_id id) i s ss h in
    let rest = holders-none id (i + 1) ss left in ground arith

holders-live : (id : List ℕ) (ks : SoftKeystore) → holders id ks ≡ 0 → psk_exists ks id ≡ false
unfolding holders psk_exists
holders-live id [] h = refl
holders-live id (s ∷ ss) h = elim (Bool-cases (has_id id s)) [
  | inl e ↦ absurd (ground arith)
  | inr e ↦
      let dead = is_live-has_id id s e in
      let rest = holders-live id ss (ground arith) in ground arith
]

-- A free slot that is filled bears the new identifier, and the others are as they were.
holders-fill :
    (id other material : List ℕ) (ks ks' : SoftKeystore)
    → fill_empty (filled id material) ks ≡ some ks'
    → holders other ks' ≡ (if same_id id other then suc (holders other ks) else holders other ks)
unfolding holders fill_empty
holders-fill id other material [] ks' h = cc
holders-fill id other material (s ∷ ss) ks' h = elim (Bool-cases (is_empty s.state)) [
  | inl e ↦
      let new_slot = filled id material in
      let same : some (new_slot ∷ ss) ≡ some ks' = sym (fill_empty_here new_slot s ss e) ∙ h in
      let eq : new_slot ∷ ss ≡ ks' = cc in rw (← eq) (ground arith)
  | inr e ↦ elim (Option-cases (fill_empty (filled id material) ss)) [
    | inl q ↦ absurd (let bad = fill_empty-none (filled id material) s ss e q in cc)
    | inr (rest, q) ↦
        let same : some (s ∷ rest) ≡ some ks' =
          sym (fill_empty_past (filled id material) s ss rest e q) ∙ h in
        let eq : s ∷ rest ≡ ks' = cc in
        let ih = holders-fill id other material ss rest q in rw (← eq) (ground arith)
  ]
]

-- Wiping the slot that a search finds leaves the others.
holders-wipe :
    (id : List ℕ) (i : ℕ) (ks : SoftKeystore) (s : PskSlot)
    → is_zero_id id ≡ false
    → get_elem? ks i ≡ some s
    → has_id id s ≡ true
    → suc (holders id (set ks i wiped_slot)) ≡ holders id ks
unfolding holders
holders-wipe id i [] t z f g = cc
holders-wipe id zero (s ∷ ss) t z f g =
    let eq : s ≡ t = cc in let held = ap (has_id id) eq ∙ g in rw z (ground arith)
holders-wipe id (suc i) (s ∷ ss) t z f g = let ih = holders-wipe id i ss t z f g in ground arith

holders-wipe_le :
    (id : List ℕ) (i : ℕ) (ks : SoftKeystore)
    → is_zero_id id ≡ false
    → holders id (set ks i wiped_slot) ≤ holders id ks
unfolding holders
holders-wipe_le id i [] z = omega arith
holders-wipe_le id zero (s ∷ ss) z = rw z (ground arith)
holders-wipe_le id (suc i) (s ∷ ss) z = let ih = holders-wipe_le id i ss z in ground arith

-- What the code may do to the pool.
pub data Reach : SoftKeystore → Type 0 where
  started : Reach new
  provision_call :
      (ks : SoftKeystore) (id material : List ℕ) → Reach ks → Reach ((provision ks id material).1)
  destroy_call : (ks : SoftKeystore) (id : List ℕ) → Reach ks → Reach ((psk_destroy ks id).1)
  wipe_call : (ks : SoftKeystore) → Reach ks → Reach (wipe_all ks)

new-IsUnique : IsUnique new
unfolding IsUnique holders
new-IsUnique id z = omega arith

-- What each operation does to the pool.
provision_effect :
    (ks : SoftKeystore) (id material : List ℕ)
    → ((provision ks id material).1 ≡ ks)
      ⊎ ((find_any_with_id ks id ≡ none)
          × (fill_empty (filled id material) ks ≡ some ((provision ks id material).1)))
unfolding provision
provision_effect ks id material =
    elim (Bool-cases (length material == 0 || ltb max_psk_len (length material))) [
      | inl bad ↦ inl (ground arith)
      | inr good ↦ elim (Option-cases (find_any_with_id ks id)) [
        | inr (i, found) ↦ inl (ground arith)
        | inl f ↦ elim (Option-cases (fill_empty (filled id material) ks)) [
          | inl g ↦ inl (ground arith)
          | inr (ks', g) ↦ inr (f, ground arith)
        ]
      ]
    ]

destroy_effect :
    (ks : SoftKeystore) (id : List ℕ)
    → ((find_any_with_id ks id ≡ none) × ((psk_destroy ks id).1 ≡ ks))
      ⊎ ((i : ℕ) × (find_any_with_id ks id ≡ some i)
          × ((psk_destroy ks id).1 ≡ set ks i wiped_slot))
unfolding psk_destroy
destroy_effect ks id = elim (Option-cases (find_any_with_id ks id)) [
  | inl f ↦ inl (f, rw (f, psk_destroy) refl)
  | inr (i, f) ↦ inr (i, f, rw (f, psk_destroy) refl)
]

provision-IsUnique :
    (ks : SoftKeystore) (id material : List ℕ)
    → IsUnique ks
    → IsUnique ((provision ks id material).1)
unfolding IsUnique
provision-IsUnique ks id material u other z = elim (provision_effect ks id material) [
  | inl same ↦ rw same (u other z)
  | inr (f, g) ↦
      let counted = holders-fill id other material ks ((provision ks id material).1) g in
      let free = holders-none id 0 ks f in
      elim (Bool-cases (same_id id other)) [
        | inl e ↦
            let same = same_id-eq id other e in
            let zero_held : holders other ks ≡ 0 =
              ap (λ (t : List ℕ). holders t ks) (sym same) ∙ free in
            let one =
              counted
              ∙ ap (λ (t : Bool). if t then suc (holders other ks) else holders other ks) e in
            omega arith
        | inr e ↦
            let most = u other z in
            let one =
              counted
              ∙ ap (λ (t : Bool). if t then suc (holders other ks) else holders other ks) e in
            omega arith
      ]
]

destroy-IsUnique :
    (ks : SoftKeystore) (id : List ℕ) → IsUnique ks → IsUnique ((psk_destroy ks id).1)
unfolding IsUnique
destroy-IsUnique ks id u other z = elim (destroy_effect ks id) [
  | inl (f, same) ↦ rw same (u other z)
  | inr (i, f, same) ↦
      let less = holders-wipe_le other i ks z in let most = u other z in rw same (omega arith)
]

holders-wipe_all :
    (id : List ℕ) (ks : SoftKeystore) → is_zero_id id ≡ false → holders id (wipe_all ks) ≡ 0
unfolding holders wipe_all
holders-wipe_all id [] z = refl
holders-wipe_all id (s ∷ ss) z = rw z (holders-wipe_all id ss z)

wipe_all-IsUnique : (ks : SoftKeystore) → IsUnique (wipe_all ks)
unfolding IsUnique
wipe_all-IsUnique ks id z = omega (arith, holders-wipe_all id ks z)

holders-zero :
    (id : List ℕ) (i : ℕ) (ks : SoftKeystore)
    → holders id ks ≡ 0
    → find_index (has_id id) i ks ≡ none
unfolding holders
holders-zero id i [] h = unfold find_index in refl
holders-zero id i (s ∷ ss) h = elim (Bool-cases (has_id id s)) [
  | inl e ↦ absurd (ground arith)
  | inr e ↦ find_index_past (has_id id) i s ss e ∙ holders-zero id (i + 1) ss (ground arith)
]

destroy-holders :
    (ks : SoftKeystore) (id : List ℕ)
    → IsUnique ks
    → is_zero_id id ≡ false
    → holders id ((psk_destroy ks id).1) ≡ 0
unfolding IsUnique
destroy-holders ks id u z = elim (destroy_effect ks id) [
  | inl (f, same) ↦ rw same (holders-none id 0 ks f)
  | inr (i, f, same) ↦
      let (j, at, (s, held, bears)) = find_index-some (has_id id) 0 i ks f in
      let here : j ≡ i = omega arith in
      let fewer = holders-wipe id i ks s z (rw here at held) bears in
      let most = u id z in rw same (omega arith)
]

Reach-IsUnique : (ks : SoftKeystore) → Reach ks → IsUnique ks
Reach-IsUnique _ started = new-IsUnique
Reach-IsUnique _ (provision_call ks id material r) =
    provision-IsUnique ks id material (Reach-IsUnique ks r)
Reach-IsUnique _ (destroy_call ks id r) = destroy-IsUnique ks id (Reach-IsUnique ks r)
Reach-IsUnique _ (wipe_call ks r) = wipe_all-IsUnique ks

-- In a pool that any sequence of operations led to, after `psk_destroy` of an identifier other
-- than the zero one no used slot has it, and it no longer exists.
pub destroy_removes :
    (ks : SoftKeystore) (id : List ℕ)
    → Reach ks
    → is_zero_id id ≡ false
    → (find_any_with_id ((psk_destroy ks id).1) id ≡ none)
      × (psk_exists ((psk_destroy ks id).1) id ≡ false)
destroy_removes ks id r z =
    let gone = destroy-holders ks id (Reach-IsUnique ks r) z in
    (holders-zero id 0 ((psk_destroy ks id).1) gone, holders-live id ((psk_destroy ks id).1) gone)

-- In a pool that any sequence of operations led to, an identifier other than the zero one can be
-- given to a new key right after it was destroyed, as long as a slot is empty and the key has 1 to
-- 64 bytes; extracting with it then uses the new key.
pub reprovision_after_destroy :
    (sha256 : List ℕ → List ℕ) (ks : SoftKeystore) (id material salt : List ℕ)
    → Reach ks
    → is_zero_id id ≡ false
    → 0 < length material
    → length material ≤ max_psk_len
    → has_room ((psk_destroy ks id).1) ≡ true
    → (ks' : SoftKeystore) × (provision ((psk_destroy ks id).1) id material ≡ (ok tt, ks'))
      × (psk_hkdf_extract sha256 ks' id salt ≡ ok (hkdf_extract sha256 salt material))
reprovision_after_destroy sha256 ks id material salt r z l u room =
    let (ks', accepted, live, extracted) =
      provision-extract sha256 ((psk_destroy ks id).1) id material salt l u
        ((destroy_removes ks id r z).0) room in
    (ks', accepted, extracted)

provision-new :
    (id material : List ℕ)
    → 0 < length material
    → length material ≤ max_psk_len
    → (provision new id material).1 ≡ filled id material ∷ replicate 7 empty_slot
provision-new id material l u =
    ap (λ (r : Result KeystoreError (Unit {0}) × SoftKeystore). r.1)
      (provision_accepted new (filled id material ∷ replicate 7 empty_slot) id material l u
        (unfold find_index in refl)
        (fill_empty_here (filled id material) empty_slot (replicate 7 empty_slot) refl))

provision_second :
    (id material : List ℕ) (s : PskSlot)
    → 0 < length material
    → length material ≤ max_psk_len
    → has_id id s ≡ false
    → is_empty s.state ≡ false
    → (provision (s ∷ replicate 7 empty_slot) id material).1
      ≡ s ∷ filled id material ∷ replicate 6 empty_slot
provision_second id material s l u f e =
    ap (λ (r : Result KeystoreError (Unit {0}) × SoftKeystore). r.1)
      (provision_accepted (s ∷ replicate 7 empty_slot)
        (s ∷ filled id material ∷ replicate 6 empty_slot) id material l u
        (find_index_past (has_id id) 0 s (replicate 7 empty_slot) f ∙ unfold find_index in refl)
        (fill_empty_past (filled id material) s (replicate 7 empty_slot)
          (filled id material ∷ replicate 6 empty_slot) e
          (fill_empty_here (filled id material) empty_slot (replicate 6 empty_slot) refl)))

destroy_first :
    (ks : SoftKeystore) (id : List ℕ) (s : PskSlot)
    → has_id id s ≡ true
    → psk_destroy (s ∷ ks) id ≡ (ok tt, wiped_slot ∷ ks)
unfolding psk_destroy
destroy_first ks id s h = rw (find_index_here (has_id id) 0 s ks h, psk_destroy) refl

-- In a pool of two keys, the second with the zero identifier, once the first is destroyed,
-- destroying the second reports success and leaves it: it still exists.
pub destroy_misses_zero_id :
    (id material other : List ℕ)
    → is_zero_id id ≡ false
    → 0 < length material
    → length material ≤ max_psk_len
    → 0 < length other
    → length other ≤ max_psk_len
    → let ks = (psk_destroy ((provision ((provision new id material).1) zero_id other).1) id).1 in
      ((psk_destroy ks zero_id).0 ≡ ok tt)
      × (psk_exists ((psk_destroy ks zero_id).1) zero_id ≡ true)
destroy_misses_zero_id id material other z l u l' u' =
    let first = filled id material in
    let second = filled zero_id other in
    let made = provision-new id material l u in
    let both : (provision ((provision new id material).1) zero_id other).1
        ≡ first ∷ second ∷ replicate 6 empty_slot =
      rw made (provision_second zero_id other first l' u' (same_id_comm id zero_id ∙ z) refl) in
    let left =
      ap (λ (r : Result HsmError (Unit {0}) × SoftKeystore). r.1)
        (destroy_first (second ∷ replicate 6 empty_slot) id first (filled_is_live id material)) in
    let again =
      destroy_first (second ∷ replicate 6 empty_slot) zero_id wiped_slot (unfold same_id in refl) in
    rw (both, left, again) (refl, unfold psk_exists same_id in refl)
