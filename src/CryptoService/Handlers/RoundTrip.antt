-- ===== src/CryptoService/Handlers/RoundTrip.antt =====
-- What `handle_encrypt` protects `handle_decrypt` recovers (src/crypto_service.rs).
use iso_light_k.Common.{
  ℕ, ◌+◌, ◌-◌, ◌≡◌, ◌≤◌, refl, sym, ap, ◌∙◌, Bool, true, false, ltb, ◌==◌, if◌then◌else◌,
  Bool-cases, inl, inr, Option, none, some, List, [], ◌++◌, length, take, drop, replicate, Result,
  ok, err, length-append, length-take, length-replicate, take-length-append, arith,
}
use iso_light_k.Common.Bytes.{to_le_bytes, little_endian, little_endian-to_le_bytes_two}
use iso_light_k.Common.Slices.{take_whole, take-append, drop-length-append}
use iso_light_k.Primitives.{Aead}
use iso_light_k.Hmac.{
  CryptoError, weak_nonce, authentication_failed, invalid_data_length, output_too_large,
}
use iso_light_k.Ipc.Payload.{
  CryptoAlgo, aes256_gcm, chacha20_poly, CryptoPayload, read_crypto_payload,
}
use iso_light_k.CryptoService.{parse_algo, ok_reply, write_ok_reply}
use iso_light_k.CryptoService.Handlers.{
  ◌>>=◌, with_key_sizes, all_zero, key_of, nonce_of, encrypt_aes256gcm, decrypt_aes256gcm,
  encrypt_chacha20poly, decrypt_chacha20poly, encrypt_by, decrypt_by, handle_encrypt,
  handle_decrypt, or_error,
}

pub bind-inv {ℓ κ} :
    {A : Type ℓ} {B : Type κ} (m : Result CryptoError A) (f : A → Result CryptoError B) (b : B)
    → (m >>= f) ≡ ok b
    → (a : A) × (m ≡ ok a) × (f a ≡ ok b)
unfolding ◌>>=◌
bind-inv (ok a) f b h = (a, refl, h)
bind-inv (err e) f b h = absurd (ground arith)

ok-inj : (a b : List ℕ) → Path (Result CryptoError (List ℕ)) (ok a) (ok b) → a ≡ b
ok-inj a b h = cc

-- A reply as the caller reads it.
pub record IsReply (algo : ℕ) (bytes raw : List ℕ) : Type 0 where
  pub fits : length bytes ≤ 168
  pub size : length raw ≡ 256
  pub len : (read_crypto_payload raw).data_len ≡ length bytes
  pub holds : (read_crypto_payload raw).bytes ≡ bytes ++ replicate (168 - length bytes) 0

ok_reply-IsReply :
    (algo : ℕ) (bytes : List ℕ) → length bytes ≤ 168 → IsReply algo bytes (ok_reply algo bytes)
unfolding read_crypto_payload to_le_bytes little_endian
ok_reply-IsReply algo bytes le =
    let zeros : List ℕ = replicate (168 - length bytes) 0 in
    let padded : length (bytes ++ zeros) ≡ 168 =
      omega (arith, length-append bytes zeros, length-replicate {A = ℕ} (168 - length bytes) 0) in
    record {
      fits = le;
      size = omega (arith, padded);
      len = little_endian-to_le_bytes_two (length bytes) (omega arith);
      holds = take_whole 168 (bytes ++ zeros) (omega (arith, padded));
    }

pub write_ok_reply-IsReply :
    (algo : ℕ) (bytes raw : List ℕ) → write_ok_reply algo bytes ≡ ok raw → IsReply algo bytes raw
unfolding write_ok_reply
write_ok_reply-IsReply algo bytes raw h = elim (Bool-cases (ltb 168 (length bytes))) [
  | inl y ↦ absurd (ground arith)
  | inr n ↦
      let made : ok_reply algo bytes ≡ raw =
        ok-inj (ok_reply algo bytes) raw (rw (n, write_ok_reply) at h) in
      rw (← made) (ok_reply-IsReply algo bytes (ground arith))
]

-- The request to decrypt under the key and the nonce of another.
abbrev pub with_data : CryptoPayload → ℕ → List ℕ → CryptoPayload
with_data req data_len bytes = record req { data_len = data_len; bytes = bytes }

-- The sizes that both ciphers ask for.
abbrev IsSized : CryptoPayload → Type 0
IsSized req = ((req.key_len == 32) ≡ true) × ((req.nonce_len == 12) ≡ true)

with_key_sizes-inv {ℓ} :
    {A : Type ℓ} (req : CryptoPayload) (m : Result CryptoError A) (a : A)
    → with_key_sizes req m ≡ ok a
    → (m ≡ ok a) × IsSized req
unfolding with_key_sizes
with_key_sizes-inv req m a h = elim (Bool-cases (req.key_len == 32)) [
  | inr n ↦ absurd (ground arith)
  | inl y ↦ elim (Bool-cases (req.nonce_len == 12)) [
    | inr n ↦ absurd (ground arith)
    | inl y' ↦ (rw (y, y', with_key_sizes) at h, (y, y'))
  ]
]

with_key_sizes_lem {ℓ} :
    {A : Type ℓ} (req : CryptoPayload) (m : Result CryptoError A)
    → IsSized req
    → with_key_sizes req m ≡ m
unfolding with_key_sizes
with_key_sizes_lem req m (y, y') = rw (y, y', with_key_sizes) refl

pub unless-inv {ℓ} :
    {A : Type ℓ} (b : Bool) (e : CryptoError) (r : Result CryptoError A) (a : A)
    → (if b then err e else r) ≡ ok a
    → (b ≡ false) × (r ≡ ok a)
unless-inv true e r a h = absurd (ground arith)
unless-inv false e r a h = (refl, h)

or_error-inv {ℓ} :
    {A : Type ℓ} (e : CryptoError) (o : Option A) (a : A) → or_error e o ≡ ok a → o ≡ some a
or_error-inv e none a h = absurd (ground arith)
or_error-inv e (some b) a h = ground arith

module _ (aead : Aead) where
  -- What a cipher guarantees of the parts that it makes.
  record Opens (algo : CryptoAlgo) (req : CryptoPayload) (text cipher tag : List ℕ) : Type 0 where
    pub cipher_sized : length cipher ≡ length text
    pub tag_sized : length tag ≡ 16
    pub opens :
        (len : ℕ) (bytes : List ℕ)
        → decrypt_by aead algo (with_data req len bytes) cipher tag ≡ ok text

  encrypt_by-Opens :
      (algo : CryptoAlgo) (req : CryptoPayload) (text cipher tag : List ℕ)
      → encrypt_by aead algo req text ≡ ok (cipher, tag)
      → Opens algo req text cipher tag
  unfolding encrypt_by decrypt_by encrypt_aes256gcm decrypt_aes256gcm encrypt_chacha20poly
      decrypt_chacha20poly
  encrypt_by-Opens aes256_gcm req text cipher tag h =
      let key = key_of req in
      let nonce = nonce_of req in
      let (inner, sized) = with_key_sizes-inv req _ (cipher, tag) h in
      let (fresh, sealed) =
        unless-inv (all_zero nonce) weak_nonce (ok (aead.aes_seal key nonce [] text)) (cipher, tag)
          inner in
      let c : (aead.aes_seal key nonce [] text).0 ≡ cipher = cc in
      let t : (aead.aes_seal key nonce [] text).1 ≡ tag = cc in
      let (m, n) = aead.aes_sizes key nonce [] text in
      record {
        cipher_sized = ap length (sym c) ∙ m;
        tag_sized = ap length (sym t) ∙ n;
        opens = λ len bytes.
            with_key_sizes_lem (with_data req len bytes) _ sized
            ∙ ap (or_error authentication_failed) (rw (c, t) at (aead.aes_opens key nonce [] text));
      }
  encrypt_by-Opens chacha20_poly req text cipher tag h =
      let key = key_of req in
      let nonce = nonce_of req in
      let (inner, sized) = with_key_sizes-inv req _ (cipher, tag) h in
      let (fresh, made) =
        unless-inv (all_zero nonce) weak_nonce
          (or_error invalid_data_length (aead.chacha_seal key nonce [] text)) (cipher, tag) inner in
      let sealed =
        or_error-inv invalid_data_length (aead.chacha_seal key nonce [] text) (cipher, tag) made in
      let (m, n) = aead.chacha_sizes key nonce [] text cipher tag sealed in
      record {
        cipher_sized = m;
        tag_sized = n;
        opens = λ len bytes.
            with_key_sizes_lem (with_data req len bytes) _ sized
            ∙ ap (or_error authentication_failed)
                (aead.chacha_opens key nonce [] text cipher tag sealed);
      }
  encrypt_by-Opens algo req text cipher tag h = absurd (ground arith)

  -- The cipher text and the tag, cut out of the data of a reply.
  decrypt_lem :
      (algo : CryptoAlgo) (req : CryptoPayload) (text cipher tag zeros : List ℕ) (len : ℕ)
      → parse_algo req.algo ≡ ok algo
      → Opens algo req text cipher tag
      → len ≡ length text + 16
      → len ≤ 168
      → handle_decrypt aead (with_data req len ((cipher ++ tag) ++ zeros))
        ≡ write_ok_reply req.algo text
  unfolding handle_decrypt ◌>>=◌
  decrypt_lem algo req text cipher tag zeros len parsed o len_is short =
      let bytes = (cipher ++ tag) ++ zeros in
      let size : length (cipher ++ tag) ≡ len =
        omega (arith, length-append cipher tag, o.cipher_sized, o.tag_sized) in
      let n : len - 16 ≡ length cipher = omega (arith, o.cipher_sized) in
      let a : ltb len 16 ≡ false = ground arith in
      let b : ltb 168 len ≡ false = ground arith in
      let whole : take len bytes ≡ cipher ++ tag =
        rw (← size) (take-length-append (cipher ++ tag) zeros) in
      let front : take (length cipher) bytes ≡ cipher =
        take-append (length cipher) (cipher ++ tag) zeros (omega (arith, length-append cipher tag))
        ∙ take-length-append cipher tag in
      let back : drop (length cipher) (take len bytes) ≡ tag =
        rw whole (drop-length-append cipher tag) in
      rw parsed (rw (a, b, n, front, back) (rw (o.opens len bytes) refl))

  -- Where `handle_encrypt` accepts a request whose data field has its 168 bytes, the data of its
  -- reply, sent back to `handle_decrypt` under the same algorithm, key and nonce, gives the reply
  -- with the plain text.
  pub handle_decrypt-handle_encrypt :
      (req : CryptoPayload) (raw : List ℕ)
      → length req.bytes ≡ 168
      → handle_encrypt aead req ≡ ok raw
      → handle_decrypt aead
          (with_data req (read_crypto_payload raw).data_len (read_crypto_payload raw).bytes)
        ≡ write_ok_reply req.algo (take req.data_len req.bytes)
  unfolding handle_encrypt
  handle_decrypt-handle_encrypt req raw whole h =
      let text = take req.data_len req.bytes in
      let (algo, parsed, h1) = bind-inv _ _ raw h in
      let last : List ℕ × List ℕ → Result CryptoError (List ℕ) = λ sealed.
        if ltb 168 (req.data_len + 16)
        then err output_too_large
        else write_ok_reply req.algo (sealed.0 ++ sealed.1) in
      let (fits, h2) =
        unless-inv (ltb 168 req.data_len) invalid_data_length
          (encrypt_by aead algo req text >>= last) raw h1 in
      let ((cipher, tag), made, h3) = bind-inv (encrypt_by aead algo req text) last raw h2 in
      let (room, written) =
        unless-inv (ltb 168 (req.data_len + 16)) output_too_large
          (write_ok_reply req.algo (cipher ++ tag)) raw h3 in
      let o = encrypt_by-Opens algo req text cipher tag made in
      let reply = write_ok_reply-IsReply req.algo (cipher ++ tag) raw written in
      let n : length text ≡ req.data_len =
        let le : req.data_len ≤ 168 = ground arith in
        omega (arith, length-take req.data_len req.bytes, whole) in
      rw (reply.len, reply.holds)
        (decrypt_lem algo req text cipher tag (replicate (168 - length (cipher ++ tag)) 0)
          (length (cipher ++ tag)) parsed o
          (omega (arith, n, o.cipher_sized, o.tag_sized, length-append cipher tag)) reply.fits)
