-- ===== src/Hsm/Attest.antt =====
-- src/hsm_attest.rs: the attestation of a module's key by the trust root, and the choice of the
-- root at boot. The build embeds `hsm_trust_root_pk_const`; with the build option
-- K0_TRUST_ROOT_KEYSTORE the key store is asked first.
use iso_light_k.Common.{
  ℕ, zero, suc, ◌/◌, ◌%◌, Bool, true, false, Option, none, some, List, [], ◌∷◌, ◌++◌, take, drop,
  replicate, Result, ok, err,
}
use iso_light_k.Audit.{AuditRing, audit_enqueue}
use iso_light_k.Primitives.{Crypto, Random}
use iso_light_k.Bus.{BusKind, kind_octet}
use iso_light_k.Hsm.{Machine}

abbrev pub pk_len : ℕ
pk_len = 1312

abbrev pub sig_len : ℕ
sig_len = 2420

-- "ISO-K0-ENROLL-V1"
abbrev pub enroll_context : List ℕ
enroll_context = 73 ∷ 83 ∷ 79 ∷ 45 ∷ 75 ∷ 48 ∷ 45 ∷ 69 ∷ 78 ∷ 82 ∷ 79 ∷ 76 ∷ 76 ∷ 45 ∷ 86 ∷ 49 ∷ []

-- The two parts of an attestation.
unfoldable pub pk_of : List ℕ → List ℕ
pk_of payload = take pk_len payload

unfoldable pub sig_of : List ℕ → List ℕ
sig_of payload = drop pk_len payload

pub data AttestError : Type 0 where
  attest_failed : AttestError

-- The public key, the octet of the transport and the challenge of this boot.
abbrev pub pre_image : {W : Type 0} → Machine W → List ℕ → BusKind → List ℕ
pre_image m pk kind = pk ++ kind_octet kind ∷ m.boot_challenge

unfoldable pub verify_attest :
    {W : Type 0} → Crypto → Machine W → List ℕ → BusKind → List ℕ → Result AttestError (Unit {0})
verify_attest c m pk kind sig = elim (c.blake3 (pre_image m pk kind)) [
  | none ↦ err attest_failed
  | some digest ↦ elim (c.mldsa_verify m.trust_root (take 32 digest) sig enroll_context) [
    | none ↦ err attest_failed
    | some true ↦ ok tt
    | some false ↦ err attest_failed
  ]
]

unfoldable pub pk_hash_prefix : Crypto → List ℕ → List ℕ
pk_hash_prefix c pk = elim (c.blake3 pk) [ none ↦ replicate 4 0 | some digest ↦ take 4 digest ]

-- `to_be_bytes` of a `u64`
abbrev pub to_be_bytes : ℕ → ℕ → List ℕ
to_be_bytes zero n = []
to_be_bytes (suc size) n = to_be_bytes size (n / 256) ++ n % 256 ∷ []

module _ (rand : Random) where
  -- The loop over the words of the challenge; `none` is the panic that stops the boot.
  unfoldable pub draw_challenge : ℕ → rand.World → Option (List ℕ × rand.World)
  draw_challenge zero w = some ([], w)
  draw_challenge (suc words) w =
      let (token, w') = rand.gen_token_u64 w in
      elim token [
        | err e ↦ none
        | ok t ↦ elim (draw_challenge words w') [
          | none ↦ none
          | some (rest, w'') ↦ some (to_be_bytes 8 t ++ rest, w'')
        ]
      ]

  -- The root and the audit ring after step 1. `stored` is `read_trust_root_pk` of the key store.
  unfoldable pub choose_root : Bool → Option (List ℕ) → List ℕ → AuditRing → List ℕ × AuditRing
  unfolding audit_enqueue
  choose_root false stored fallback ring = (fallback, ring)
  choose_root true (some pk) fallback ring = (pk, ring)
  choose_root true none fallback ring = (fallback, audit_enqueue ring 254 8 0 (replicate 4 0))

  unfoldable pub init_trust_root :
      Bool → Option (List ℕ) → List ℕ → Machine rand.World → Option (Machine rand.World)
  unfolding choose_root draw_challenge
  init_trust_root from_keystore stored hsm_trust_root_pk_const m =
      let (root, ring) = choose_root from_keystore stored hsm_trust_root_pk_const m.audit in
      elim (draw_challenge 4 m.world) [
        | none ↦ none
        | some (challenge, w) ↦
            some
              (record m { trust_root = root; audit = ring; boot_challenge = challenge; world = w })
      ]
