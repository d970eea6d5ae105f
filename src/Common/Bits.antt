-- ===== src/Common/Bits.antt =====
-- `bit_and` at variables: its lowest digit, and the laws that masks of rights need.
use Prim.Native.Nat.{
  ℕ, zero, suc, ◌+◌, ◌-◌, ◌*◌, ◌/◌, ◌%◌, ◌≤◌, min, bit_and, digits, bit_and-bitwise,
}
use mathlib.Core.Path.{◌≡◌, refl, sym, ap, ◌∙◌}
use native.Mathlib.Omega.{arith}

-- The digit recursion that the native operation stands for, with its fuel first.
abbrev meet_within : ℕ → ℕ → ℕ → ℕ
meet_within fuel x y = digits (λ rest. zero) min fuel x y

-- One more unit of fuel changes nothing once the fuel reaches the value.
meet_settles : (x y fuel : ℕ) → x ≤ fuel → meet_within (suc fuel) x y ≡ meet_within fuel x y
meet_settles zero y zero enough = refl
meet_settles zero y (suc fuel) enough = refl
meet_settles (suc x) y zero enough = absurd (omega arith)
meet_settles (suc x) y (suc fuel) enough =
    let half : suc x / 2 ≤ fuel = omega arith in
    let ih = meet_settles (suc x / 2) (y / 2) fuel half in omega arith

meet_stable :
    (extra more fuel x y : ℕ)
    → x ≤ fuel
    → more ≡ extra + fuel
    → meet_within more x y ≡ meet_within fuel x y
meet_stable zero more fuel x y enough e = let same : more ≡ fuel = omega arith in rw same refl
meet_stable (suc extra) zero fuel x y enough e = absurd (omega arith)
meet_stable (suc extra) (suc more) fuel x y enough e =
    meet_settles x y more (omega arith) ∙ meet_stable extra more fuel x y enough (omega arith)

pub zero-bit_and : (b : ℕ) → bit_and 0 b ≡ 0
zero-bit_and = bit_and-bitwise 0

-- A meet is twice the meet of the halves, and the meet of the lowest bits.
pub bit_and_step : (x y : ℕ) → bit_and x y ≡ bit_and (x / 2) (y / 2) * 2 + min (x % 2) (y % 2)
bit_and_step zero y = let none_left = zero-bit_and (y / 2) in omega (arith, zero-bit_and y)
bit_and_step (suc x) y =
    let half = suc x / 2 in
    let unfolded = bit_and-bitwise (suc x) y in
    let halved = bit_and-bitwise half (y / 2) in
    let stable = meet_stable (x - half) x half half (y / 2) (omega arith) (omega arith) in
    omega arith

-- The quotient and the remainder of a meet.
pub bit_and-div : (a b : ℕ) → bit_and a b / 2 ≡ bit_and (a / 2) (b / 2)
bit_and-div a b = omega (arith, bit_and_step a b)

pub bit_and-mod : (a b : ℕ) → bit_and a b % 2 ≡ min (a % 2) (b % 2)
bit_and-mod a b = omega (arith, bit_and_step a b)

bit_and_comm_fuel : (n a b : ℕ) → a ≤ n → b ≤ n → bit_and a b ≡ bit_and b a
bit_and_comm_fuel zero zero zero p q = refl
bit_and_comm_fuel zero (suc a) b p q = absurd (omega arith)
bit_and_comm_fuel zero zero (suc b) p q = absurd (omega arith)
bit_and_comm_fuel (suc n) a b p q = omega (
  arith,
  bit_and_step a b,
  bit_and_step b a,
  bit_and_comm_fuel n (a / 2) (b / 2) (omega arith) (omega arith),
)

pub bit_and_comm : (a b : ℕ) → bit_and a b ≡ bit_and b a
bit_and_comm a b = bit_and_comm_fuel (a + b) a b (omega arith) (omega arith)

bit_and_self_fuel : (n a : ℕ) → a ≤ n → bit_and a a ≡ a
bit_and_self_fuel zero zero p = refl
bit_and_self_fuel zero (suc a) p = absurd (omega arith)
bit_and_self_fuel (suc n) a p =
    omega (arith, bit_and_step a a, bit_and_self_fuel n (a / 2) (omega arith))

pub bit_and_self : (a : ℕ) → bit_and a a ≡ a
bit_and_self a = bit_and_self_fuel a a (omega arith)

bit_and_assoc_fuel : (n a b c : ℕ) → a ≤ n → bit_and (bit_and a b) c ≡ bit_and a (bit_and b c)
bit_and_assoc_fuel zero (suc a) b c p = absurd (omega arith)
bit_and_assoc_fuel zero zero b c p =
    ap (λ (t : ℕ). bit_and t c) (zero-bit_and b) ∙ zero-bit_and c ∙ sym (zero-bit_and (bit_and b c))
bit_and_assoc_fuel (suc n) a b c p =
    let ih = bit_and_assoc_fuel n (a / 2) (b / 2) (c / 2) (omega arith) in
    let l = ap (λ (t : ℕ). bit_and t (c / 2)) (bit_and-div a b) in
    let r = ap (λ (t : ℕ). bit_and (a / 2) t) (bit_and-div b c) in
    omega (
      arith,
      bit_and_step (bit_and a b) c,
      bit_and_step a (bit_and b c),
      bit_and-mod a b,
      bit_and-mod b c,
    )

pub bit_and_assoc : (a b c : ℕ) → bit_and (bit_and a b) c ≡ bit_and a (bit_and b c)
bit_and_assoc a b c = bit_and_assoc_fuel a a b c (omega arith)

-- A meet that holds all of `r` holds it on both sides.
pub meet_contains_left : (p s r : ℕ) → bit_and (bit_and p s) r ≡ r → bit_and p r ≡ r
meet_contains_left p s r h =
    ap (bit_and p) (sym h)
    ∙ sym (bit_and_assoc p (bit_and p s) r)
    ∙ ap (λ (t : ℕ). bit_and t r) (sym (bit_and_assoc p p s))
    ∙ ap (λ (t : ℕ). bit_and (bit_and t s) r) (bit_and_self p)
    ∙ h

pub meet_contains_right : (p s r : ℕ) → bit_and (bit_and p s) r ≡ r → bit_and s r ≡ r
meet_contains_right p s r h =
    meet_contains_left s p r (ap (λ (t : ℕ). bit_and t r) (bit_and_comm s p) ∙ h)

pub meet_contains : (p s r : ℕ) → bit_and p r ≡ r → bit_and s r ≡ r → bit_and (bit_and p s) r ≡ r
meet_contains p s r hp hs = bit_and_assoc p s r ∙ ap (bit_and p) hs ∙ hp
