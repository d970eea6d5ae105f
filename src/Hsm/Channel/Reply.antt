-- ===== src/Hsm/Channel/Reply.antt =====
-- The response that a write to a Ring 3 process leaves (src/bus.rs), and its read.
use iso_light_k.Common.{
  ℕ, suc, ◌+◌, ◌%◌, ◌<◌, ◌^◌, ◌≤◌, ◌≡◌, ◌≢◌, true, refl, sym, ap, ◌∙◌, inl, inr, Option, none, some,
  Option-cases, List, length, take, drop, Result, ok, err, get_or-set_self, arith,
}
use iso_light_k.Common.Partial.{After, After->>=, After-result, After-both}
use iso_light_k.Primitives.{Crypto}
use iso_light_k.Wire.{parse_header}
use iso_light_k.Wire.Laws.{IsReply}
use iso_light_k.Bus.{BusError}
use iso_light_k.Bus.Ring3
use iso_light_k.Bus.Instance
use iso_light_k.Bus.Ring3.{Ring3ProcessBus}
use iso_light_k.Bus.Instance.{ring3_bus}
use iso_light_k.Hsm.{Machine, HsmSlot, new_slot}
use iso_light_k.Hsm.Registry.Release.{IsValid}
use iso_light_k.Hsm.Keeps.{Keeps}
use iso_light_k.Hsm.Channel.Keeps.{dispatch-Keeps, bus_write-After}
use iso_light_k.Hsm.Channel.{
  dispatch, answer, ring3_refusal, ring3_serve, ring3_write, write_instance, bus_write,
}
use iso_light_k.Hsm.Channel.Sizes.{ArePrefixed}
use iso_light_k.Hsm.Channel.Commands.{Frame, bus_at, put_bus, bus_read}
use iso_light_k.Hsm.Channel.Frames.{dispatch-IsReply}

-- What a write that succeeded leaves at the slot of a Ring 3 process.
pub record IsAnswered {W : Type 0} (idx : ℕ) (bytes : List ℕ) (p : Ring3ProcessBus) (m : Machine W)
    : Type 0 where
  pub frame : Frame
  pub reply : IsReply (parse_header (take 16 bytes)) frame
  pub stored :
      bus_at m idx ≡ ring3_bus (record p { pending_response = frame.1; response_len = frame.0 })
  pub readable : (more : ℕ) → (bus_read (frame.0 + more) idx m).0 ≡ ok (take frame.0 frame.1)

-- An open process with a response hands it over to a buffer that has room for it.
read_waiting :
    {W : Type 0} (idx room : ℕ) (m : Machine W) (p : Ring3ProcessBus)
    → bus_at m idx ≡ ring3_bus p
    → p.open_state ≡ true
    → p.response_len ≢ 0
    → p.response_len ≤ room
    → (bus_read room idx m).0 ≡ ok (take p.response_len p.pending_response)
unfolding bus_read Ring3.read Instance.read
read_waiting idx room m p at is_open waits fits =
    let read_it : (Ring3.read room p).0 ≡ ok (take p.response_len p.pending_response) =
      ground arith in
    ap (λ b. (Instance.read room b).0) at ∙ read_it

answer-IsAnswered :
    {W : Type 0} (idx n : ℕ) (bytes : List ℕ) (p : Ring3ProcessBus) (x : Frame × Machine W)
    → p.open_state ≡ true
    → idx < length x.1.slots
    → IsReply (parse_header (take 16 bytes)) x.0
    → IsAnswered idx bytes p (answer idx p n x).1
unfolding answer
answer-IsAnswered idx n bytes p (frame, m) is_open l r =
    let p' : Ring3ProcessBus = record p {
      pending_response = frame.1;
      response_len = frame.0 % 2 ^ 16;
    } in
    let m' = put_bus idx (ring3_bus p') m in
    let at : bus_at m' idx ≡ ring3_bus p' =
      ap HsmSlot.bus (get_or-set_self m.slots idx _ new_slot l) in
    let fits : frame.0 % 2 ^ 16 ≡ frame.0 = omega (arith, r.size_u16) in
    record {
      frame = frame;
      reply = r;
      stored =
          at ∙ ap (λ k. ring3_bus (record p { pending_response = frame.1; response_len = k })) fits;
      readable = λ more.
          read_waiting idx (frame.0 + more) m' p' at is_open (omega (arith, fits, r.size_is))
            (omega (arith, fits))
          ∙ ap (λ (k : ℕ). ok (take k frame.1)) fits;
    }

refusal_open :
    (p : Ring3ProcessBus) (bytes : List ℕ) → ring3_refusal p bytes ≡ none → p.open_state ≡ true
unfolding ring3_refusal
refusal_open p bytes h = ground arith

refusal_waits :
    (p : Ring3ProcessBus) (bytes : List ℕ) → p.response_len ≢ 0 → ring3_refusal p bytes ≡ none → ⊥
unfolding ring3_refusal
refusal_waits p bytes waits h = ground arith

module _ {W : Type 0} (c : Crypto) (fuel idx : ℕ) (bytes : List ℕ) (m : Machine W) where
  -- If the write succeeded, the slot answers.
  abbrev Answers : Ring3ProcessBus → Result BusError ℕ × Machine W → Type 0
  Answers p (err e, m') = Unit
  Answers p (ok n, m') = (n ≡ length bytes) × IsAnswered idx bytes p m'

  ring3_serve-Answers :
      (p : Ring3ProcessBus) (o : Option BusError)
      → (o ≡ none → p.open_state ≡ true)
      → IsValid m.slots
      → ArePrefixed m.audit.events
      → idx < length m.slots
      → (parse_header (take 16 bytes)).req_id < 2 ^ 32
      → After (Answers p) (ring3_serve c (bus_write c fuel) idx p bytes m o)
  unfolding ring3_serve answer
  ring3_serve-Answers p (some e) opened v prefixed l small = tt
  ring3_serve-Answers p none opened v prefixed l small =
      let hdr = parse_header (take 16 bytes) in
      let payload = take hdr.payload_len (drop 16 bytes) in
      let nested = bus_write c fuel in
      let dispatched =
        After-both (λ x. Keeps m.slots x.1.slots) (λ x. IsReply hdr x.0)
          (dispatch c nested idx hdr payload m)
          (dispatch-Keeps c nested (λ i b k w. bus_write-After c fuel i b k w) idx hdr payload m v)
          (dispatch-IsReply c idx hdr small nested payload m prefixed) in
      After->>= (λ x. Keeps m.slots x.1.slots × IsReply hdr x.0) (Answers p)
        (dispatch c nested idx hdr payload m) (answer idx p (length bytes)) dispatched
        (λ x k. (
          refl,
          answer-IsAnswered idx (length bytes) bytes p x (opened refl) (omega (arith, k.0.sized))
              k.1,
        ))

  -- On a valid table, with the prefixes in the audit ring 4 bytes each, where a Ring 3 process at a
  -- slot in range takes a frame whose request number is a u32, the result is the length of the frame,
  -- and the slot holds a response with the magic, the version and the number of the request, whose
  -- command is that of the request with the response bit, or the error command. The length stored is
  -- 16 more than the payload length in the response's header, and a read with room for it returns
  -- that many bytes of the response.
  pub bus_write-IsAnswered :
      (p : Ring3ProcessBus) (n : ℕ) (m' : Machine W)
      → IsValid m.slots
      → ArePrefixed m.audit.events
      → idx < length m.slots
      → bus_at m idx ≡ ring3_bus p
      → (parse_header (take 16 bytes)).req_id < 2 ^ 32
      → bus_write c (suc fuel) idx bytes m ≡ some (ok n, m')
      → (n ≡ length bytes) × IsAnswered idx bytes p m'
  unfolding bus_write write_instance ring3_write
  bus_write-IsAnswered p n m' v prefixed l at small e =
      After-result (Answers p)
        (ring3_serve c (bus_write c fuel) idx p bytes m (ring3_refusal p bytes)) (ok n, m')
        (ring3_serve-Answers p (ring3_refusal p bytes) (refusal_open p bytes) v prefixed l small)
        (ap (λ b. write_instance c (bus_write c fuel) idx b bytes m) (sym at) ∙ e)

  -- While a response waits at a Ring 3 process, writing a frame to it fails and changes nothing.
  pub bus_write_waits :
      (p : Ring3ProcessBus)
      → bus_at m idx ≡ ring3_bus p
      → p.response_len ≢ 0
      → (e : BusError) × (bus_write c (suc fuel) idx bytes m ≡ some (err e, m))
  unfolding bus_write write_instance ring3_write ring3_serve
  bus_write_waits p at waits = elim (Option-cases (ring3_refusal p bytes)) [
    | inl taken ↦ absurd (never taken)
    | inr (e, refused) ↦ (
      e,
      ap (λ b. write_instance c (bus_write c fuel) idx b bytes m) at
          ∙ ap (ring3_serve c (bus_write c fuel) idx p bytes m) refused,
    )
  ]
    where
      never : ring3_refusal p bytes ≡ none → ⊥
      never h = refusal_waits p bytes waits h
