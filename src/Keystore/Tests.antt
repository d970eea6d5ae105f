-- ===== src/Keystore/Tests.antt =====
-- The theorems on src/keystore.rs at concrete inputs.
use iso_light_k.Common.{
  take, ℕ, ◌≡◌, refl, true, false, none, List, [], ◌∷◌, replicate, ok, err, arith,
}
use iso_light_k.Hmac.{hkdf_extract}
use iso_light_k.Keystore.{
  SoftKeystore, duplicate, new, zero_id, same_id, find_index, find_any_with_id, fill_empty,
  provision, psk_exists, psk_destroy, psk_hkdf_extract,
}
use iso_light_k.Keystore.Provision.{has_room, provision-extract}
use iso_light_k.Keystore.Destroy.{Reach, started, provision_call, is_zero_id, destroy_removes}

abbrev key_id : List ℕ
key_id = replicate 16 3

-- The first bytes in place of SHA-256.
abbrev first_bytes : List ℕ → List ℕ
first_bytes = take 32

new_has_none : find_any_with_id new key_id ≡ none
unfolding find_index
new_has_none = refl

new-has_room : has_room new ≡ true
unfolding has_room
new-has_room = refl

key_id_nonzero : is_zero_id key_id ≡ false
unfolding same_id
key_id_nonzero = refl

provision-extract_example :
    (ks' : SoftKeystore) × (provision new key_id (1 ∷ 2 ∷ []) ≡ (ok tt, ks'))
    × (psk_exists ks' key_id ≡ true)
    × (psk_hkdf_extract first_bytes ks' key_id (9 ∷ [])
        ≡ ok (hkdf_extract first_bytes (9 ∷ []) (1 ∷ 2 ∷ [])))
provision-extract_example =
    provision-extract first_bytes new key_id (1 ∷ 2 ∷ []) (9 ∷ []) (omega arith) (omega arith)
      new_has_none new-has_room

abbrev one_key : SoftKeystore
one_key = (provision new key_id (1 ∷ 2 ∷ [])).1

again_refused : provision one_key key_id (5 ∷ []) ≡ (err duplicate, one_key)
unfolding provision fill_empty find_index same_id
again_refused = refl

one_key-Reach : Reach one_key
one_key-Reach = provision_call new key_id (1 ∷ 2 ∷ []) started

destroy_removes_example :
    (find_any_with_id ((psk_destroy one_key key_id).1) key_id ≡ none)
    × (psk_exists ((psk_destroy one_key key_id).1) key_id ≡ false)
destroy_removes_example = destroy_removes one_key key_id one_key-Reach key_id_nonzero

room_left : has_room ((psk_destroy one_key key_id).1) ≡ true
unfolding has_room provision fill_empty find_index same_id psk_destroy
room_left = refl

abbrev key_destroyed : SoftKeystore
key_destroyed = (psk_destroy ((provision one_key zero_id (7 ∷ [])).1) key_id).1
