-- ===== src/Sign/Plain.antt =====
-- A signature package that signs everything alike, for runs.
use iso_light_k.Common.{ℕ, ◌≡◌, sym, ap, true, Option, none, some, List, length, replicate, arith}
use iso_light_k.Sign.{Mldsa, pk_len, sk_len, sig_len}

abbrev pub same_signature : List ℕ
same_signature = replicate 2420 5

pub signature_sized : (sig : List ℕ) → some same_signature ≡ some sig → length sig ≡ sig_len
signature_sized sig h = let e : same_signature ≡ sig = cc in ap length (sym e)

pub no_keys :
    (pk sk : List ℕ)
    → Path (Option (List ℕ × List ℕ)) none (some (pk, sk))
    → (length pk ≡ pk_len) × (length sk ≡ sk_len)
no_keys pk sk h = absurd (ground arith)

abbrev pub signs_alike : Mldsa
signs_alike = record {
  keygen = λ seed. none;
  sign = λ sk msg ctx rnd. some same_signature;
  verify = λ pk msg sig ctx. some true;
  length-keygen = λ seed pk sk h. no_keys pk sk h;
  length-sign = λ sk msg ctx rnd sig h. signature_sized sig h;
}
