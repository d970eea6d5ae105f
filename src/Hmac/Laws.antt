-- ===== src/Hmac/Laws.antt =====
-- HKDF-Expand of src/crypto_service.rs against RFC 5869.
use iso_light_k.Common.{
  ℕ, zero, suc, ◌+◌, ◌-◌, ◌*◌, ◌%◌, ◌≡◌, ◌≤◌, ◌<◌, refl, sym, ap, ◌∙◌, min, true, false, ltb, ◌==◌,
  Option, none, some, List, [], ◌∷◌, ◌++◌, length, take, ok, err, Bool-cases, inl, inr,
  length-append, length-take, ==_iff, arith,
}
use iso_light_k.Common.Slices.{take-append-over}
use iso_light_k.Hmac.{
  hmac_sha256_multi, next_block, expand_loop, hkdf_expand, hkdf_max_output, output_too_large,
}

module _ (sha256 : List ℕ → List ℕ) (length-sha256 : (bytes : List ℕ) → length (sha256 bytes) ≡ 32)
    (prk info : List ℕ) where
  -- T(0) is empty, and T(i) = HMAC(PRK, T(i - 1) ‖ info ‖ i).
  unfoldable pub t_block : ℕ → List ℕ
  t_block zero = []
  t_block (suc i) = hmac_sha256_multi sha256 prk (t_block i ∷ info ∷ (suc i ∷ []) ∷ [])

  -- T(i + 1) ‖ … ‖ T(i + n).
  unfoldable pub t_blocks : ℕ → ℕ → List ℕ
  unfolding t_block
  t_blocks i zero = []
  t_blocks i (suc n) = t_block (suc i) ++ t_blocks (suc i) n

  length-t_block : (i : ℕ) → length (t_block (suc i)) ≡ 32
  unfolding t_block hmac_sha256_multi
  length-t_block i = length-sha256 _

  -- What the loop keeps of the last block.
  abbrev last : ℕ → Option (List ℕ)
  last zero = none
  last (suc i) = some (t_block (suc i))

  next_block-last : (i : ℕ) → next_block sha256 prk info (last i) (suc i) ≡ t_block (suc i)
  unfolding t_block hmac_sha256_multi
  next_block-last zero = refl
  next_block-last (suc i) = refl

  expand_loop_lem :
      (fuel i n left : ℕ)
      → left ≤ fuel
      → left ≤ n * 32
      → i + n < 255
      → expand_loop sha256 fuel prk info (last i) (suc i) left ≡ take left (t_blocks i n)
  unfolding expand_loop t_blocks
  expand_loop_lem zero i n left enough blocks small =
      let done : left ≡ 0 = omega arith in rw done refl
  expand_loop_lem (suc fuel) i zero left enough blocks small =
      let done : left ≡ 0 = omega arith in rw done refl
  expand_loop_lem (suc fuel) i (suc n) left enough blocks small = elim (Bool-cases (left == 0)) [
    | inl y ↦ let done : left ≡ 0 = (==_iff left 0).0 y in rw done refl
    | inr more ↦
        let counter : (suc i + 1) % 256 ≡ suc (suc i) = omega arith in
        let rest =
          expand_loop_lem fuel (suc i) n (left - min 32 left) (ground arith) (omega arith)
            (omega arith) in
        let whole = take-append-over left (t_block (suc i)) (t_blocks (suc i) n) in
        rw (more, next_block-last i, counter, rest) (sym (rw (length-t_block i) at whole))
  ]

  -- Where SHA-256 gives 32 bytes, `hkdf_expand` for at most 168 bytes gives the front of T(1) to
  -- T(6) put together, where T(i) is the HMAC of T(i - 1), the info and i, as in RFC 5869.
  pub hkdf_expand_lem :
      (n : ℕ) → n ≤ hkdf_max_output → hkdf_expand sha256 prk info n ≡ ok (take n (t_blocks 0 6))
  unfolding hkdf_expand
  hkdf_expand_lem n fits =
      let a : ltb hkdf_max_output n ≡ false = ground arith in
      let b : ltb 8160 n ≡ false = ground arith in
      rw (a, b, expand_loop_lem n 0 6 n (omega arith) (omega arith) (omega arith)) refl

  length-t_blocks : (i n : ℕ) → length (t_blocks i n) ≡ n * 32
  unfolding t_blocks
  length-t_blocks i zero = omega arith
  length-t_blocks i (suc n) = omega (
    arith,
    length-append (t_block (suc i)) (t_blocks (suc i) n),
    length-t_block i,
    length-t_blocks (suc i) n,
  )

  hkdf_expand-long :
      (n : ℕ) → ltb hkdf_max_output n ≡ true → hkdf_expand sha256 prk info n ≡ err output_too_large
  unfolding hkdf_expand
  hkdf_expand-long n over = rw over refl

  pub length-hkdf_expand :
      (n : ℕ) (okm : List ℕ) → hkdf_expand sha256 prk info n ≡ ok okm → length okm ≡ n
  length-hkdf_expand n okm h = elim (Bool-cases (ltb hkdf_max_output n)) [
    | inl over ↦ absurd (cc (hkdf_expand-long n over))
    | inr fits ↦
        let small : n ≤ hkdf_max_output = ground arith in
        let known : ok okm ≡ ok (take n (t_blocks 0 6)) = sym h ∙ hkdf_expand_lem n small in
        let same : okm ≡ take n (t_blocks 0 6) = cc in
        omega (arith, ap length same, length-take n (t_blocks 0 6), length-t_blocks 0 6)
  ]
