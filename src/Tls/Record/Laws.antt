-- ===== src/Tls/Record/Laws.antt =====
-- What `encrypt_record` protects `decrypt_record` recovers (src/tls/record.rs).
use iso_light_k.Common.{
  ℕ, suc, ◌+◌, ◌-◌, ◌*◌, ◌/◌, ◌%◌, ◌^◌, ◌≡◌, ◌≤◌, refl, sym, ap, ◌∙◌, true, false, ltb, ◌==◌,
  Option, none, some, List, [], ◌∷◌, ◌++◌, length, take, drop, ok, Bool-cases, inl, inr,
  length-append, take-length-append, arith,
}
use iso_light_k.Common.Slices.{drop-length-append, get_or-length-append}
use iso_light_k.Primitives.{Aead}
use iso_light_k.Tls.{CipherSuite, aes256_gcm_sha256, chacha20_poly1305_sha256, DirectionalKeys}
use iso_light_k.Tls.Record.{
  build_nonce, seal, unseal, sealed_record, encrypt_record, opened, is_record_header,
  decrypt_record,
}

-- The header of a record with a payload of `n` bytes, in front of some bytes.
abbrev headed : ℕ → List ℕ → List ℕ
headed n rest = 23 ∷ 3 ∷ 3 ∷ n / 256 ∷ n % 256 ∷ rest

module _ (aead : Aead) where
  -- What a cipher guarantees of the parts that it seals.
  record IsSealed (suite : CipherSuite) (key nonce aad text cipher tag : List ℕ) : Type 0 where
    pub cipher_sized : length cipher ≡ length text
    pub tag_sized : length tag ≡ 16
    pub opens : unseal aead suite key nonce aad cipher tag ≡ some text

  seal-IsSealed :
      (suite : CipherSuite) (key nonce aad text cipher tag : List ℕ)
      → seal aead suite key nonce aad text ≡ some (cipher, tag)
      → IsSealed suite key nonce aad text cipher tag
  unfolding seal unseal
  seal-IsSealed aes256_gcm_sha256 key nonce aad text cipher tag h =
      let c : (aead.aes_seal key nonce aad text).0 ≡ cipher = cc in
      let t : (aead.aes_seal key nonce aad text).1 ≡ tag = cc in
      let (m, n) = aead.aes_sizes key nonce aad text in
      record {
        cipher_sized = ap length (sym c) ∙ m;
        tag_sized = ap length (sym t) ∙ n;
        opens = rw (c, t) at (aead.aes_opens key nonce aad text);
      }
  seal-IsSealed chacha20_poly1305_sha256 key nonce aad text cipher tag h =
      let (m, n) = aead.chacha_sizes key nonce aad text cipher tag h in
      record {
        cipher_sized = m;
        tag_sized = n;
        opens = aead.chacha_opens key nonce aad text cipher tag h;
      }

  opened_lem :
      (keys : DirectionalKeys) (plain : List ℕ) (room : ℕ)
      → length plain ≤ room
      → opened aead keys (length plain + 1) room (some (plain ++ 23 ∷ []))
        ≡ (ok plain, record keys { seq = keys.seq + 1 })
  unfolding opened
  opened_lem keys plain room fits =
      let n : length plain + 1 - 1 ≡ length plain = omega arith in
      let enough : ltb room (length plain) ≡ false = ground arith in
      rw (n, get_or-length-append plain [] 23 0, enough, take-length-append plain (23 ∷ [])) refl

  decrypt_sealed :
      (keys : DirectionalKeys) (suite : CipherSuite) (plain cipher tag : List ℕ) (room n : ℕ)
      → n ≡ length plain + 1 + 16
      → length plain ≤ 200
      → (keys.seq == 2 ^ 64 - 1) ≡ false
      → length plain ≤ room
      → IsSealed suite keys.key
          (build_nonce keys.iv keys.seq)
          (headed n [])
          (plain ++ 23 ∷ [])
          cipher
          tag
      → decrypt_record aead keys suite (headed n (cipher ++ tag)) room
        ≡ (ok plain, record keys { seq = keys.seq + 1 })
  unfolding decrypt_record is_record_header
  decrypt_sealed keys suite plain cipher tag room n len short fresh fits h =
      let whole : n / 256 * 256 + n % 256 ≡ n = omega arith in
      let size : length (cipher ++ tag) ≡ n = omega (
        arith,
        length-append cipher tag,
        h.cipher_sized,
        h.tag_sized,
        length-append plain (23 ∷ []),
      ) in
      let lc : length cipher ≡ length plain + 1 =
        omega (arith, h.cipher_sized, length-append plain (23 ∷ [])) in
      let a : ltb (suc (suc (suc (suc (suc n))))) 22 ≡ false = ground arith in
      let b : (5 + n == suc (suc (suc (suc (suc n))))) ≡ true = ground arith in
      let c : ltb n 17 ≡ false = ground arith in
      let d : ltb 201 (n - 16) ≡ false = ground arith in
      let m : n - 16 ≡ length plain + 1 = omega arith in
      let five : 5 + (length plain + 1) ≡ suc (suc (suc (suc (suc (length cipher))))) =
        omega arith in
      let t : take (length plain + 1) (cipher ++ tag) ≡ cipher =
        rw (← lc) (take-length-append cipher tag) in
      let u : drop (5 + (length plain + 1)) (headed n (cipher ++ tag)) ≡ tag =
        rw five (drop-length-append cipher tag) in
      rw (whole, size, a, b, c, d, fresh, m, t, u)
        (ap (opened aead keys (length plain + 1) room) h.opens ∙ opened_lem keys plain room fits)

  sealed_record-inv :
      (keys keys' : DirectionalKeys) (aad bytes : List ℕ) (o : Option (List ℕ × List ℕ))
      → sealed_record aead keys aad o ≡ (ok bytes, keys')
      → (cipher : List ℕ) × (tag : List ℕ) × (o ≡ some (cipher, tag))
        × (bytes ≡ aad ++ (cipher ++ tag))
        × (keys' ≡ record keys { seq = keys.seq + 1 })
  unfolding sealed_record
  sealed_record-inv keys keys' aad bytes none h = absurd (ground arith)
  sealed_record-inv keys keys' aad bytes (some (cipher, tag)) h = (cipher, tag, refl, cc, cc)

  -- The record that is written, where one is.
  encrypt_record-inv :
      (keys keys' : DirectionalKeys) (suite : CipherSuite) (plain bytes : List ℕ) (room : ℕ)
      → encrypt_record aead keys suite plain room ≡ (ok bytes, keys')
      → (length plain ≤ 200)
        × ((keys.seq == 2 ^ 64 - 1) ≡ false)
        × (sealed_record aead keys (headed (length plain + 1 + 16) []) (
              seal aead suite keys.key
                (build_nonce keys.iv keys.seq)
                (headed (length plain + 1 + 16) [])
                (plain ++ 23 ∷ []))
            ≡ (ok bytes, keys'))
  unfolding encrypt_record
  encrypt_record-inv keys keys' suite plain bytes room h =
      elim (Bool-cases (ltb 200 (length plain))) [
        | inl y ↦ absurd (ground arith)
        | inr short ↦ elim (Bool-cases (keys.seq == 2 ^ 64 - 1)) [
          | inl y ↦ absurd (ground arith)
          | inr fresh ↦ elim (Bool-cases (ltb room (5 + (length plain + 1 + 16)))) [
            | inl y ↦ absurd (ground arith)
            | inr roomy ↦
                let small : ltb 65535 (length plain + 1 + 16) ≡ false = ground arith in
                (ground arith, fresh, rw (short, fresh, roomy, small, encrypt_record) at h)
          ]
        ]
      ]

  -- A record that `encrypt_record` makes is decrypted under the same keys to the plain text, where
  -- the output has room for it, and both ends then hold the same keys, with the sequence number
  -- one higher.
  pub decrypt_record-encrypt_record :
      (keys keys' : DirectionalKeys) (suite : CipherSuite) (plain bytes : List ℕ) (room room' : ℕ)
      → encrypt_record aead keys suite plain room ≡ (ok bytes, keys')
      → length plain ≤ room'
      → (decrypt_record aead keys suite bytes room' ≡ (ok plain, keys'))
        × (keys' ≡ record keys { seq = keys.seq + 1 })
  decrypt_record-encrypt_record keys keys' suite plain bytes room room' h fits =
      let n = length plain + 1 + 16 in
      let nonce = build_nonce keys.iv keys.seq in
      let text = plain ++ 23 ∷ [] in
      let (short, fresh, made) = encrypt_record-inv keys keys' suite plain bytes room h in
      let (cipher, tag, sealed, bytes_are, keys_are) =
        sealed_record-inv keys keys' (headed n []) bytes
          (seal aead suite keys.key nonce (headed n []) text) made in
      (
        ap (λ (b : List ℕ). decrypt_record aead keys suite b room') bytes_are
            ∙ (decrypt_sealed keys suite plain cipher tag room' n refl short fresh fits
                  (seal-IsSealed suite keys.key nonce (headed n []) text cipher tag sealed)
                ∙ ap (λ (k : DirectionalKeys). (ok plain, k)) (sym keys_are)),
        keys_are,
      )
