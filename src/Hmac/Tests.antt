-- ===== src/Hmac/Tests.antt =====
-- The theorem on HKDF-Expand (src/crypto_service.rs) at a concrete input.
use iso_light_k.Common.{ℕ, ◌≡◌, refl, List, [], ◌∷◌, length, take, replicate, ok, arith}
use iso_light_k.Hmac.{hkdf_expand}
use iso_light_k.Hmac.Laws.{t_blocks, hkdf_expand_lem}

-- In place of SHA-256.
abbrev same_digest : List ℕ → List ℕ
same_digest bytes = replicate 32 7

digest_sized : (bytes : List ℕ) → length (same_digest bytes) ≡ 32
digest_sized bytes = refl

hkdf_expand_lem_example :
    hkdf_expand same_digest (1 ∷ []) (2 ∷ []) 40
    ≡ ok (take 40 (t_blocks same_digest digest_sized (1 ∷ []) (2 ∷ []) 0 6))
hkdf_expand_lem_example =
    hkdf_expand_lem same_digest digest_sized (1 ∷ []) (2 ∷ []) 40 (omega arith)
