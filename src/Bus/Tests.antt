-- ===== src/Bus/Tests.antt =====
-- The buses of src/bus.rs at concrete bytes.
use iso_light_k.Common.{
  ℕ, ◌≡◌, ◌≢◌, refl, Option, none, some, List, [], ◌∷◌, length, replicate, get_or, arith,
}
use iso_light_k.Primitives.{Crypto}
use iso_light_k.Bus.Software.{SoftwareBus, SoftHsmAesGcmState, echo, aes_gcm, opened, read, write}
use iso_light_k.Bus.Software.Echo.{enqueue, dequeue, queue_of, IsEcho, IsEcho-refines}
use iso_light_k.Bus.Software.Nonces.{IsCipher, nonces, nonces-distinct}

no_digest :
    (bytes digest : List ℕ) → ◌≡◌ {A = Option (List ℕ)} none (some digest) → length digest ≡ 32
no_digest bytes digest e = absurd (ground arith)

-- A cipher that leaves the plain text, and no hash.
abbrev plain_crypto : Crypto
plain_crypto = record {
  blake3 = λ bytes. none;
  aes_gcm = λ key nonce plain. (plain, replicate 16 9);
  mldsa_verify = λ pk msg sig ctx. none;
  length-blake3 = no_digest;
  length-cipher = λ key nonce plain. refl;
  length-tag = λ key nonce plain. refl;
}

abbrev echo_bus : SoftwareBus
echo_bus = opened echo none

echo_bus-IsEcho : IsEcho echo_bus
echo_bus-IsEcho = record {
  is_open = refl;
  is_echo = refl;
  sized = refl;
  write_bound = omega arith;
  read_bound = omega arith;
}

abbrev hello : List ℕ
hello = 104 ∷ 101 ∷ 108 ∷ 108 ∷ 111 ∷ []

IsEcho-refines_example :
    (((write plain_crypto hello echo_bus).0 ≡ (enqueue hello (queue_of echo_bus)).0)
      × (queue_of (write plain_crypto hello echo_bus).1 ≡ (enqueue hello (queue_of echo_bus)).1)
      × IsEcho (write plain_crypto hello echo_bus).1)
    × (((read 3 echo_bus).0 ≡ (dequeue 3 (queue_of echo_bus)).0)
        × (queue_of (read 3 echo_bus).1 ≡ (dequeue 3 (queue_of echo_bus)).1)
        × IsEcho (read 3 echo_bus).1)
IsEcho-refines_example = IsEcho-refines plain_crypto hello 3 echo_bus echo_bus-IsEcho

abbrev cipher_state : SoftHsmAesGcmState
cipher_state = record { key = replicate 32 1; nonce_counter = 255 }

abbrev cipher_bus : SoftwareBus
cipher_bus = opened aes_gcm (some cipher_state)

cipher_bus-IsCipher : IsCipher cipher_bus
cipher_bus-IsCipher = record {
  is_open = refl;
  is_aes = refl;
  state = cipher_state;
  has_state = refl;
  counter_u64 = omega arith;
}

abbrev two_nonces : List (List ℕ)
two_nonces = nonces plain_crypto (hello ∷ hello ∷ []) cipher_bus

nonces-distinct_example : get_or two_nonces 0 [] ≢ get_or two_nonces 1 []
unfolding nonces
nonces-distinct_example =
    nonces-distinct plain_crypto (hello ∷ hello ∷ []) cipher_bus cipher_bus-IsCipher 0 1
      (omega arith) (omega arith)
