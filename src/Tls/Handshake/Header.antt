-- ===== src/Tls/Handshake/Header.antt =====
-- The header of a handshake message, written and read again (src/tls/handshake.rs).
use iso_light_k.Common.{
  ℕ, suc, false, ◌≡◌, ◌≤◌, refl, Result, [], ◌∷◌, ltb, Bool-cases, inl, inr, List, ◌++◌, length, ok,
  arith, ◌*◌, ◌/◌, ◌%◌, ◌+◌,
}
use iso_light_k.Tls.{TlsError}
use iso_light_k.Tls.Handshake.{write_handshake_header, parse_handshake_header}

abbrev header_bytes : ℕ → ℕ → List ℕ
header_bytes hs_type n = hs_type ∷ n / 65536 % 256 ∷ n / 256 % 256 ∷ n % 256 ∷ []

ok-inj : (a b : List ℕ) → Path (Result TlsError (List ℕ)) (ok a) (ok b) → a ≡ b
ok-inj a b h = cc

in_three_bytes :
    (n : ℕ) → n ≤ 16777215 → n / 65536 % 256 * 65536 + n / 256 % 256 * 256 + n % 256 ≡ n
in_three_bytes n small = omega arith

parse_bytes :
    (hs_type n : ℕ) (rest : List ℕ)
    → n ≤ 16777215
    → parse_handshake_header (header_bytes hs_type n ++ rest) ≡ ok (hs_type, n)
unfolding parse_handshake_header
parse_bytes hs_type n rest small =
    let long : ltb (suc (suc (suc (suc (length rest))))) 4 ≡ false = ground arith in
    rw (long, in_three_bytes n small) refl

-- Whatever follows a header that was written, its reader finds the type and the length in it.
pub parse_handshake_header-write_handshake_header :
    (room hs_type payload_len : ℕ) (header rest : List ℕ)
    → write_handshake_header room hs_type payload_len ≡ ok header
    → parse_handshake_header (header ++ rest) ≡ ok (hs_type, payload_len)
unfolding write_handshake_header
parse_handshake_header-write_handshake_header room hs_type payload_len header rest h =
    elim (Bool-cases (ltb 16777215 payload_len)) [
      | inl y ↦ absurd (ground arith)
      | inr fits ↦ elim (Bool-cases (ltb room 4)) [
        | inl y ↦ absurd (ground arith)
        | inr roomy ↦
            let made : header_bytes hs_type payload_len ≡ header =
              ok-inj (header_bytes hs_type payload_len) header
                (rw (fits, roomy, write_handshake_header) at h) in
            rw (← made) (parse_bytes hs_type payload_len rest (ground arith))
      ]
    ]
