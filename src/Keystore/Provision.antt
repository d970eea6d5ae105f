-- ===== src/Keystore/Provision.antt =====
-- Provisioning of src/keystore.rs: when it accepts, and that the key can then be used.
use iso_light_k.Common.{
  ℕ, ◌+◌, ◌-◌, ◌≤◌, ◌<◌, ◌≡◌, ◌≢◌, ◌⊎◌, inl, inr, ap, ◌∙◌, Bool, true, false, Bool-cases, ◌||◌, ltb,
  ◌==◌, none, some, Option-cases, List, [], ◌∷◌, length, replicate, get_elem?, take-length-append,
  ok, err, arith,
}
use iso_light_k.Hmac.{hkdf_extract}
use iso_light_k.Keystore.{
  KeystoreError, invalid_length, full, duplicate, PskSlot, SoftKeystore, is_empty, find_provisioned,
  find_any_with_id, filled, fill_empty, provision, psk_exists, psk_hkdf_extract, max_psk_len,
}
use iso_light_k.Keystore.Search.{
  fill_empty_here, fill_empty_past, fill_empty-lookup, psk_exists-find,
}

-- Whether some slot is free.
unfoldable pub has_room : SoftKeystore → Bool
has_room [] = false
has_room (s ∷ ss) = is_empty s.state || has_room ss

fill_empty-room :
    (n : PskSlot) (ks : SoftKeystore)
    → has_room ks ≡ true
    → (ks' : SoftKeystore) × (fill_empty n ks ≡ some ks')
unfolding has_room
fill_empty-room n [] h = cc
fill_empty-room n (s ∷ ss) h = elim (Bool-cases (is_empty s.state)) [
  | inl e ↦ (n ∷ ss, fill_empty_here n s ss e)
  | inr e ↦
      let (rest, q) = fill_empty-room n ss (ground arith) in
      (s ∷ rest, fill_empty_past n s ss rest e q)
]

pub provision_accepted :
    (ks ks' : SoftKeystore) (id material : List ℕ)
    → 0 < length material
    → length material ≤ max_psk_len
    → find_any_with_id ks id ≡ none
    → fill_empty (filled id material) ks ≡ some ks'
    → provision ks id material ≡ (ok tt, ks')
unfolding provision
provision_accepted ks ks' id material l u f e = rw (f, e) (ground arith)

extract_filled :
    (sha256 : List ℕ → List ℕ) (ks : SoftKeystore) (id material salt : List ℕ) (j : ℕ)
    → 0 < length material
    → find_provisioned ks id ≡ some j
    → get_elem? ks j ≡ some (filled id material)
    → psk_hkdf_extract sha256 ks id salt ≡ ok (hkdf_extract sha256 salt material)
unfolding psk_hkdf_extract
extract_filled sha256 ks id material salt j l f g =
    rw (f, psk_hkdf_extract)
      (rw g
        (ground (arith, take-length-append material (replicate (max_psk_len - length material) 0))))

-- Where no used slot has the identifier, which may be that of a key that was wiped, a slot is empty,
-- and the key has 1 to 64 bytes, `provision` accepts the key, also one that is shorter than 16 bytes;
-- the identifier then exists, and extracting with it applies HKDF to exactly the bytes of the key.
pub provision-extract :
    (sha256 : List ℕ → List ℕ) (ks : SoftKeystore) (id material salt : List ℕ)
    → 0 < length material
    → length material ≤ max_psk_len
    → find_any_with_id ks id ≡ none
    → has_room ks ≡ true
    → (ks' : SoftKeystore) × (provision ks id material ≡ (ok tt, ks'))
      × (psk_exists ks' id ≡ true)
      × (psk_hkdf_extract sha256 ks' id salt ≡ ok (hkdf_extract sha256 salt material))
provision-extract sha256 ks id material salt l u f r =
    let (ks', placed) = fill_empty-room (filled id material) ks r in
    let (j, at, held) = fill_empty-lookup id material 0 ks ks' f placed in
    let same : 0 + j ≡ j = omega arith in
    (
      ks',
      provision_accepted ks ks' id material l u f placed,
      (psk_exists-find ks' id 0).1 (λ n. cc),
      extract_filled sha256 ks' id material salt j l (at ∙ ap some same) held,
    )

-- Why `provision` refuses.
pub Refusal : SoftKeystore → List ℕ → List ℕ → KeystoreError → Type 0
Refusal ks id material e =
    ((e ≡ invalid_length) × ((length material ≡ 0) ⊎ (max_psk_len < length material)))
    ⊎ ((e ≡ duplicate) × (find_any_with_id ks id ≢ none))
    ⊎ ((e ≡ full) × (fill_empty (filled id material) ks ≡ none))

-- A refused `provision` changes nothing, and its error tells the reason: `InvalidLength` for a key
-- of 0 or of more than 64 bytes, `Duplicate` where a used slot has the identifier, `Full` where no
-- slot is empty.
pub provision_refused :
    (ks ks' : SoftKeystore) (id material : List ℕ) (e : KeystoreError)
    → provision ks id material ≡ (err e, ks')
    → (ks' ≡ ks) × Refusal ks id material e
unfolding provision Refusal
provision_refused ks ks' id material e h =
    elim (Bool-cases (length material == 0 || ltb max_psk_len (length material))) [
      | inl bad ↦ (ground arith, ground arith)
      | inr good ↦ elim (Option-cases (find_any_with_id ks id)) [
        | inr (i, found) ↦ (ground arith, inr (inl (ground arith, λ n. cc)))
        | inl f ↦ elim (Option-cases (fill_empty (filled id material) ks)) [
          | inl g ↦ (ground arith, inr (inr (ground arith, g)))
          | inr (ks'', g) ↦ absurd (ground arith)
        ]
      ]
    ]
