-- ===== src/Bus/Software/Echo.antt =====
-- The loop of `SoftwareBus` (src/bus.rs) as a queue that takes 64 bytes in all.
use iso_light_k.Common.Slices.{length-write_at}
use iso_light_k.Common.{
  ℕ, ◌+◌, ◌-◌, ◌≤◌, ◌≡◌, refl, sym, ap, ◌∙◌, min, true, false, ltb, if◌then◌else◌, Bool-cases, inl,
  inr, List, [], ◌++◌, length, take, drop, length-append, length-take, take-length-append, Result,
  ok, err, arith,
}
use iso_light_k.Common.Slices.{take-drop, drop-append, take-take, drop-drop, drop-min}
use iso_light_k.Common.Bytes.{write_at}
use iso_light_k.Primitives.{Crypto, Random}
use iso_light_k.Bus.{BusError, buffer_too_small}
use iso_light_k.Bus.Software.{
  SoftwareBus, echo, sw_bus_buf, open_bus, read, write, write_as, write_echo, open_as, role_of,
}

-- A queue, and how many bytes it ever took.
pub record Queue : Type 0 where
  pub waiting : List ℕ
  pub taken : ℕ

abbrev pub enqueue : List ℕ → Queue → Result BusError ℕ × Queue
enqueue bytes q = if ltb sw_bus_buf (q.taken + length bytes) then (err buffer_too_small, q) else (
  ok (length bytes),
  record { waiting = q.waiting ++ bytes; taken = q.taken + length bytes },
)

abbrev pub dequeue : ℕ → Queue → Result BusError (List ℕ) × Queue
dequeue room q = (ok (take room q.waiting), record q { waiting = drop room q.waiting })

-- The queue that an open bus in the role of the loop stands for.
abbrev pub queue_of : SoftwareBus → Queue
queue_of b = record {
  waiting = take (b.write_len - b.read_pos) (drop b.read_pos b.ring);
  taken = b.write_len;
}

pub record IsEcho (b : SoftwareBus) : Type 0 where
  pub is_open : b.open_state ≡ true
  pub is_echo : b.role ≡ echo
  pub sized : length b.ring ≡ sw_bus_buf
  pub write_bound : b.write_len ≤ sw_bus_buf
  pub read_bound : b.read_pos ≤ b.write_len

waiting-write_at :
    (b : SoftwareBus) (bytes : List ℕ)
    → IsEcho b
    → take
        (b.write_len + length bytes - b.read_pos)
        (drop b.read_pos (write_at b.write_len bytes b.ring))
      ≡ (queue_of b).waiting ++ bytes
waiting-write_at b bytes v =
    let front = take b.write_len b.ring in
    let tail = drop (b.write_len + length bytes) b.ring in
    let long : length front ≡ b.write_len =
      omega (arith, length-take b.write_len b.ring, v.sized, v.write_bound) in
    let both : length (front ++ bytes) ≡ b.write_len + length bytes =
      omega (arith, length-append front bytes, long) in
    take-drop (b.write_len + length bytes) b.read_pos (front ++ bytes ++ tail)
    ∙ ap (λ (t : ℕ). drop b.read_pos (take t (front ++ bytes ++ tail))) (sym both)
    ∙ ap (drop b.read_pos) (take-length-append (front ++ bytes) tail)
    ∙ drop-append b.read_pos front bytes (omega (arith, long, v.read_bound))
    ∙ ap (λ (t : List ℕ). t ++ bytes) (sym (take-drop b.write_len b.read_pos b.ring))

write_echo-lem :
    (bytes : List ℕ) (b : SoftwareBus)
    → IsEcho b
    → ((write_echo bytes b).0 ≡ (enqueue bytes (queue_of b)).0)
      × (queue_of (write_echo bytes b).1 ≡ (enqueue bytes (queue_of b)).1)
      × IsEcho (write_echo bytes b).1
unfolding write_echo
write_echo-lem bytes b v = elim (Bool-cases (ltb sw_bus_buf (b.write_len + length bytes))) [
  | inl large ↦
      let refused : ltb (sw_bus_buf - b.write_len) (length bytes) ≡ true =
        ground (arith, v.write_bound) in
      rw (large, refused) (refl, refl, v)
  | inr small ↦
      let accepted : ltb (sw_bus_buf - b.write_len) (length bytes) ≡ false =
        ground (arith, v.write_bound) in
      let fits : b.write_len + length bytes ≤ sw_bus_buf = ground arith in
      rw (small, accepted)
        (
          refl,
          λ i. record {
            waiting = waiting-write_at b bytes v i;
            taken = b.write_len + length bytes;
          },
          record {
            is_open = v.is_open;
            is_echo = v.is_echo;
            sized = length-write_at b.write_len bytes b.ring (omega (arith, v.sized)) ∙ v.sized;
            write_bound = fits;
            read_bound = omega (arith, v.read_bound);
          },
        )
]

pub write-lem :
    (c : Crypto) (bytes : List ℕ) (b : SoftwareBus)
    → IsEcho b
    → ((write c bytes b).0 ≡ (enqueue bytes (queue_of b)).0)
      × (queue_of (write c bytes b).1 ≡ (enqueue bytes (queue_of b)).1)
      × IsEcho (write c bytes b).1
unfolding write write_as
write-lem c bytes b v =
    let same : write c bytes b ≡ write_echo bytes b = rw (v.is_open, v.is_echo) refl in
    rw same (write_echo-lem bytes b v)

pub read-lem :
    (room : ℕ) (b : SoftwareBus)
    → IsEcho b
    → ((read room b).0 ≡ (dequeue room (queue_of b)).0)
      × (queue_of (read room b).1 ≡ (dequeue room (queue_of b)).1)
      × IsEcho (read room b).1
unfolding read
read-lem room b v =
    let xs = drop b.read_pos b.ring in
    let k = b.write_len - b.read_pos in
    let n = min k room in
    let rest : take (b.write_len - (b.read_pos + n)) (drop (b.read_pos + n) b.ring)
        ≡ drop room (take k xs) =
      ap (λ (t : ℕ). take t (drop (b.read_pos + n) b.ring)) (omega arith)
      ∙ sym (ap (take (k - n)) (drop-drop n b.read_pos b.ring))
      ∙ take-drop k n xs
      ∙ drop-min room k xs in
    rw v.is_open (
      ap ok (sym (take-take room k xs)),
      λ i. record { waiting = rest i; taken = b.write_len },
      record {
        is_open = refl;
        is_echo = v.is_echo;
        sized = v.sized;
        write_bound = v.write_bound;
        read_bound = omega (arith, v.read_bound);
      },
    )

-- Opening a closed bus with an empty blob gives the empty queue.
pub open-IsEcho :
    (rand : Random) (b : SoftwareBus) (w : rand.World)
    → b.open_state ≡ false
    → ((open_bus rand [] b w).0 ≡ ok tt)
      × (queue_of (open_bus rand [] b w).1 ≡ record { waiting = []; taken = 0 })
      × IsEcho (open_bus rand [] b w).1
unfolding open_bus open_as role_of
open-IsEcho rand b w shut = rw shut (
  refl,
  refl,
  record {
    is_open = refl;
    is_echo = refl;
    sized = refl;
    write_bound = omega arith;
    read_bound = omega arith;
  },
)

-- An open bus in the role of the loop is a queue that takes 64 bytes in all: a write within that
-- appends its bytes and else is refused with `BufferTooSmall`, and a read removes from the front
-- as many bytes as the buffer has room for; both keep the bus well-formed.
pub IsEcho-refines :
    (c : Crypto) (bytes : List ℕ) (room : ℕ) (b : SoftwareBus)
    → IsEcho b
    → (((write c bytes b).0 ≡ (enqueue bytes (queue_of b)).0)
        × (queue_of (write c bytes b).1 ≡ (enqueue bytes (queue_of b)).1)
        × IsEcho (write c bytes b).1)
      × (((read room b).0 ≡ (dequeue room (queue_of b)).0)
          × (queue_of (read room b).1 ≡ (dequeue room (queue_of b)).1)
          × IsEcho (read room b).1)
IsEcho-refines c bytes room b v = (write-lem c bytes b v, read-lem room b v)
