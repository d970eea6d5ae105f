-- ===== src/Bus/Software/Nonces.antt =====
-- The cipher of `SoftwareBus` (src/bus.rs): no two frames under one key have the same nonce.
use iso_light_k.Common.{
  ℕ, zero, suc, ◌+◌, ◌-◌, ◌<◌, ◌≤◌, ◌^◌, ◌≡◌, ◌≢◌, refl, sym, ap, ◌∙◌, true, ltb, ◌==◌,
  if◌then◌else◌, Bool-cases, inl, inr, some, List, [], ◌∷◌, ◌++◌, length, take, drop, get_or,
  length-append, length-take, min, ◌⊎◌, Result, ok, err, arith,
}
use iso_light_k.Common.Slices.{take-append, take-take}
use iso_light_k.Common.Bytes.{
  little_endian, to_le_bytes, overwrite, write_at, little_endian-to_le_bytes,
}
use iso_light_k.Primitives.{Crypto}
use iso_light_k.Bus.{BusError, not_open, internal, buffer_too_small}
use iso_light_k.Bus.Software.{
  SoftwareBus, SoftHsmAesGcmState, aes_gcm, gcm_nonce_size, gcm_tag_size, sw_bus_buf, nonce_of,
  sealed_ring, write, write_as, write_sealed,
}

-- An open bus in the role of the cipher, with a counter.
pub record IsCipher (b : SoftwareBus) : Type 0 where
  pub is_open : b.open_state ≡ true
  pub is_aes : b.role ≡ aes_gcm
  pub state : SoftHsmAesGcmState
  pub has_state : b.aes_state ≡ some state
  pub counter_u64 : state.nonce_counter < 2 ^ 64

-- A successful write leaves a frame with its nonce at the front of the ring.
abbrev with_nonce : Result BusError ℕ → List ℕ → List (List ℕ) → List (List ℕ)
with_nonce (ok n) ring rest = take gcm_nonce_size ring ∷ rest
with_nonce (err e) ring rest = rest

-- The nonces of the frames that writes of these plain texts leave.
unfoldable pub nonces : Crypto → List (List ℕ) → SoftwareBus → List (List ℕ)
unfolding write
nonces c [] b = []
nonces c (plain ∷ plains) b =
    let (r, b') = write c plain b in with_nonce r b'.ring (nonces c plains b')

nonces_after : Crypto → List (List ℕ) → Result BusError ℕ × SoftwareBus → List (List ℕ)
unfolding nonces
nonces_after c plains (r, b) = with_nonce r b.ring (nonces c plains b)

nonce_of-injective : (a b : ℕ) → a < 2 ^ 64 → b < 2 ^ 64 → nonce_of a ≡ nonce_of b → a ≡ b
unfolding to_le_bytes
nonce_of-injective a b l m e =
    sym (little_endian-to_le_bytes 8 a l)
    ∙ ap (λ (t : List ℕ). little_endian (take 8 t)) e
    ∙ little_endian-to_le_bytes 8 b m

sealed_ring-nonce :
    (c : Crypto) (state : SoftHsmAesGcmState) (plain ring : List ℕ)
    → take gcm_nonce_size (sealed_ring c state plain ring) ≡ nonce_of state.nonce_counter
unfolding to_le_bytes
sealed_ring-nonce c state plain ring =
    let nonce = nonce_of state.nonce_counter in
    let (cipher, tag) = c.aes_gcm state.key nonce plain in
    let inner = overwrite nonce (write_at gcm_nonce_size cipher ring) in
    let m = gcm_nonce_size + length plain in
    let front = take m inner in
    let inner_long : 12 ≤ length inner =
      omega (arith, length-append nonce (drop 12 (write_at gcm_nonce_size cipher ring))) in
    let long : 12 ≤ length front = omega (arith, length-take m inner) in
    let least : min m 12 ≡ 12 = omega arith in
    take-append 12 (front ++ tag) (drop (m + length tag) inner)
      (omega (arith, length-append front tag))
    ∙ take-append 12 front tag long
    ∙ take-take 12 m inner
    ∙ ap (λ (t : ℕ). take t inner) least

-- A write to the cipher: its nonce is that of the next counter, which is then the counter.
write-IsCipher :
    (c : Crypto) (plain : List ℕ) (b : SoftwareBus) (v : IsCipher b)
    → ((e : BusError) × (write c plain b ≡ (err e, b)))
      ⊎ ((n : ℕ) × (b' : SoftwareBus) × (w : IsCipher b') × (write c plain b ≡ (ok n, b'))
          × (w.state.nonce_counter ≡ suc v.state.nonce_counter)
          × (take gcm_nonce_size b'.ring ≡ nonce_of w.state.nonce_counter))
unfolding write write_as write_sealed
write-IsCipher c plain b v =
    let total = length plain + gcm_nonce_size + gcm_tag_size in
    let same : write c plain b ≡ write_sealed c plain b =
      ap (λ o. if o then write_as c b.role plain b else (err not_open, b)) v.is_open
      ∙ ap (λ r. write_as c r plain b) v.is_aes in
    let state' : SoftHsmAesGcmState = record v.state {
      nonce_counter = v.state.nonce_counter + 1;
    } in
    elim (Bool-cases (v.state.nonce_counter == 2 ^ 64 - 1)) [
      | inl last ↦ inl (internal, same ∙ rw (v.has_state, last) refl)
      | inr more ↦ elim (Bool-cases (ltb sw_bus_buf total)) [
        | inl large ↦ inl (buffer_too_small, same ∙ rw (v.has_state, more, large) refl)
        | inr fits ↦
            let b' : SoftwareBus = record b {
              ring = sealed_ring c state' plain b.ring;
              write_len = total;
              read_pos = 0;
              aes_state = some state';
            } in
            inr (
              total,
              b',
              record {
                is_open = v.is_open;
                is_aes = v.is_aes;
                state = state';
                has_state = refl;
                counter_u64 = ground (arith, v.counter_u64);
              },
              same ∙ rw (v.has_state, more, fits) refl,
              omega arith,
              sealed_ring-nonce c state' plain b.ring,
            )
      ]
    ]

-- The list of nonces after a first write that failed, and after one that did not.
nonces-err :
    (c : Crypto) (plain : List ℕ) (plains : List (List ℕ)) (b : SoftwareBus) (e : BusError)
    → write c plain b ≡ (err e, b)
    → nonces c (plain ∷ plains) b ≡ nonces c plains b
unfolding nonces nonces_after
nonces-err c plain plains b e h = ap (nonces_after c plains) h

nonces-ok :
    (c : Crypto) (plain : List ℕ) (plains : List (List ℕ)) (b b' : SoftwareBus) (n : ℕ)
    → write c plain b ≡ (ok n, b')
    → nonces c (plain ∷ plains) b ≡ take gcm_nonce_size b'.ring ∷ nonces c plains b'
unfolding nonces nonces_after
nonces-ok c plain plains b b' n h = ap (nonces_after c plains) h

-- The nonce is that of a counter above the given one.
abbrev IsLater : ℕ → List ℕ → Type 0
IsLater counter nonce = (k : ℕ) × (counter < k) × (k < 2 ^ 64) × (nonce ≡ nonce_of k)

-- Every nonce from now on is that of a later counter.
nonces-IsLater :
    (c : Crypto) (plains : List (List ℕ)) (b : SoftwareBus) (v : IsCipher b) (i : ℕ)
    → i < length (nonces c plains b)
    → IsLater v.state.nonce_counter (get_or (nonces c plains b) i [])
nonces-IsLater c [] b v i l = absurd (unfold nonces in omega arith)
nonces-IsLater c (plain ∷ plains) b v i l = elim (write-IsCipher c plain b v) [
  | inl (e, failed) ↦
      let at = nonces-err c plain plains b e failed in
      rw at (nonces-IsLater c plains b v i (rw at at l))
  | inr (n, b', w, done, next, nonce) ↦
      let at = nonces-ok c plain plains b b' n done in
      rw at (go b' w next nonce i (rw at at l) (nonces-IsLater c plains b' w))
]
  where
    go :
        (b' : SoftwareBus) (w : IsCipher b')
        → w.state.nonce_counter ≡ suc v.state.nonce_counter
        → take gcm_nonce_size b'.ring ≡ nonce_of w.state.nonce_counter
        → (i : ℕ) → i < length (take gcm_nonce_size b'.ring ∷ nonces c plains b')
        → ((j : ℕ)
            → j < length (nonces c plains b')
            → IsLater w.state.nonce_counter (get_or (nonces c plains b') j []))
        → IsLater v.state.nonce_counter
            (get_or (take gcm_nonce_size b'.ring ∷ nonces c plains b') i [])
    go b' w next nonce zero l rest = (w.state.nonce_counter, omega arith, w.counter_u64, nonce)
    go b' w next nonce (suc i) l rest =
        let (k, above, small, at) = rest i (omega arith) in (k, omega arith, small, at)

-- In any sequence of writes to an open bus in the role of the cipher, no two of the frames that
-- the successful ones leave have the same nonce.
pub nonces-distinct :
    (c : Crypto) (plains : List (List ℕ)) (b : SoftwareBus) (v : IsCipher b) (i j : ℕ)
    → i < j
    → j < length (nonces c plains b)
    → get_or (nonces c plains b) i [] ≢ get_or (nonces c plains b) j []
nonces-distinct c [] b v i j lt l = absurd (unfold nonces in omega arith)
nonces-distinct c (plain ∷ plains) b v i j lt l = elim (write-IsCipher c plain b v) [
  | inl (e, failed) ↦
      let at = nonces-err c plain plains b e failed in
      rw at (nonces-distinct c plains b v i j lt (rw at at l))
  | inr (n, b', w, done, next, nonce) ↦
      let at = nonces-ok c plain plains b b' n done in
      rw at (go b' w nonce i j lt (rw at at l) (nonces-distinct c plains b' w))
]
  where
    go :
        (b' : SoftwareBus) (w : IsCipher b')
        → take gcm_nonce_size b'.ring ≡ nonce_of w.state.nonce_counter
        → (i j : ℕ) → i < j
        → j < length (take gcm_nonce_size b'.ring ∷ nonces c plains b')
        → ((i j : ℕ)
            → i < j
            → j < length (nonces c plains b')
            → get_or (nonces c plains b') i [] ≢ get_or (nonces c plains b') j [])
        → get_or (take gcm_nonce_size b'.ring ∷ nonces c plains b') i []
          ≢ get_or (take gcm_nonce_size b'.ring ∷ nonces c plains b') j []
    go b' w nonce i zero lt l rest = absurd (omega arith)
    go b' w nonce zero (suc j) lt l rest = λ e.
        let (k, above, small, at) = nonces-IsLater c plains b' w j (omega arith) in
        let same =
          nonce_of-injective w.state.nonce_counter k w.counter_u64 small (sym nonce ∙ e ∙ at) in
        omega arith
    go b' w nonce (suc i) (suc j) lt l rest = rest i j (omega arith) (omega arith)
