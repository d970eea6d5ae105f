-- ===== src/Common/Slices.antt =====
-- Slices of lists: `take` and `drop` against each other and against `++`.
use Prim.Native.Nat.{ℕ, zero, suc, ◌+◌, ◌-◌, ◌≤◌, min}
use mathlib.Core.Path.{◌≡◌, refl, sym, ap, ◌∙◌}
use mathlib.Core.List.{List, [], ◌∷◌, ◌++◌}
use native.Mathlib.Omega.{arith}
use iso_light_k.Common.Lists.{
  length, take, drop, get_or, take-length-append, length-append, length-take, length-drop,
}
use iso_light_k.Common.Bytes.{write_at, overwrite}

module _ {ℓ} {A : Type ℓ} where
  take-nil : (n : ℕ) → ◌≡◌ {A = List A} (take n []) []
  take-nil zero = refl
  take-nil (suc n) = refl

  drop-nil : (n : ℕ) → ◌≡◌ {A = List A} (drop n []) []
  drop-nil zero = refl
  drop-nil (suc n) = refl

  -- A slice taken from the front or from the back.
  pub take-drop : (n k : ℕ) (xs : List A) → take (n - k) (drop k xs) ≡ drop k (take n xs)
  take-drop n zero xs = let same : n - 0 ≡ n = omega arith in ap (λ t. take t xs) same
  take-drop n (suc k) [] = take-nil (n - suc k) ∙ sym (ap (drop (suc k)) (take-nil n))
  take-drop zero (suc k) (x ∷ xs) =
      let none_left : 0 - suc k ≡ 0 = omega arith in ap (λ t. take t (drop k xs)) none_left
  take-drop (suc n) (suc k) (x ∷ xs) =
      let same : suc n - suc k ≡ n - k = omega arith in
      ap (λ t. take t (drop k xs)) same ∙ take-drop n k xs

  pub drop-append : (k : ℕ) (xs ys : List A) → k ≤ length xs → drop k (xs ++ ys) ≡ drop k xs ++ ys
  drop-append zero xs ys l = refl
  drop-append (suc k) [] ys l = absurd (omega arith)
  drop-append (suc k) (x ∷ xs) ys l = drop-append k xs ys (omega arith)

  pub take-take : (n k : ℕ) (xs : List A) → take n (take k xs) ≡ take (min k n) xs
  take-take n zero xs =
      let least : min 0 n ≡ 0 = omega arith in take-nil n ∙ sym (ap (λ t. take t xs) least)
  take-take zero (suc k) xs =
      let least : min (suc k) 0 ≡ 0 = omega arith in sym (ap (λ t. take t xs) least)
  take-take (suc n) (suc k) [] = sym (take-nil (min (suc k) (suc n)))
  take-take (suc n) (suc k) (x ∷ xs) =
      let least : min (suc k) (suc n) ≡ suc (min k n) = omega arith in
      ap (λ (t : List A). x ∷ t) (take-take n k xs) ∙ sym (ap (λ t. take t (x ∷ xs)) least)

  pub drop-drop : (n k : ℕ) (xs : List A) → drop n (drop k xs) ≡ drop (k + n) xs
  drop-drop n zero xs = let same : 0 + n ≡ n = omega arith in sym (ap (λ t. drop t xs) same)
  drop-drop n (suc k) [] = drop-nil n ∙ sym (drop-nil (suc k + n))
  drop-drop n (suc k) (x ∷ xs) =
      let same : suc k + n ≡ suc (k + n) = omega arith in
      drop-drop n k xs ∙ sym (ap (λ t. drop t (x ∷ xs)) same)

  -- Dropping more than there is.
  pub drop-min : (n k : ℕ) (xs : List A) → drop (min k n) (take k xs) ≡ drop n (take k xs)
  drop-min n zero xs =
      let least : min 0 n ≡ 0 = omega arith in ap (λ t. drop t []) least ∙ sym (drop-nil n)
  drop-min zero (suc k) xs =
      let least : min (suc k) 0 ≡ 0 = omega arith in ap (λ t. drop t (take (suc k) xs)) least
  drop-min (suc n) (suc k) [] = drop-nil (min (suc k) (suc n))
  drop-min (suc n) (suc k) (x ∷ xs) =
      let least : min (suc k) (suc n) ≡ suc (min k n) = omega arith in
      ap (λ t. drop t (x ∷ take k xs)) least ∙ drop-min n k xs

  pub take-append : (n : ℕ) (xs ys : List A) → n ≤ length xs → take n (xs ++ ys) ≡ take n xs
  take-append zero xs ys l = refl
  take-append (suc n) [] ys l = absurd (omega arith)
  take-append (suc n) (x ∷ xs) ys l = ap (λ (t : List A). x ∷ t) (take-append n xs ys (omega arith))

  pub take_whole : (n : ℕ) (xs : List A) → length xs ≤ n → take n xs ≡ xs
  take_whole zero [] l = refl
  take_whole (suc n) [] l = refl
  take_whole zero (x ∷ xs) l = absurd (omega arith)
  take_whole (suc n) (x ∷ xs) l = ap (λ (t : List A). x ∷ t) (take_whole n xs (omega arith))

  -- What a write in the middle puts behind the front that stays.
  pub take-write :
      (n : ℕ) (ys xs zs : List A)
      → n ≤ length xs
      → take (n + length ys) (take n xs ++ ys ++ zs) ≡ take n xs ++ ys
  take-write zero ys xs zs l =
      let same : 0 + length ys ≡ length ys = omega arith in rw same (take-length-append ys zs)
  take-write (suc n) ys [] zs l = absurd (omega arith)
  take-write (suc n) ys (x ∷ xs) zs l =
      let same : suc n + length ys ≡ suc (n + length ys) = omega arith in
      rw same (ap (λ (t : List A). x ∷ t) (take-write n ys xs zs (omega arith)))

-- A write inside a buffer keeps its size.
pub length-write_at :
    (offset : ℕ) (bytes buffer : List ℕ)
    → offset + length bytes ≤ length buffer
    → length (write_at offset bytes buffer) ≡ length buffer
length-write_at offset bytes buffer fits = grind (arith, length-append, length-take, length-drop)

pub length-overwrite :
    (front buffer : List ℕ)
    → length front ≤ length buffer
    → length (overwrite front buffer) ≡ length buffer
length-overwrite front buffer fits = grind (arith, length-append, length-drop)

-- A slice read in two pieces.
pub take-min-drop {ℓ} :
    {A : Type ℓ} (m n : ℕ) (xs : List A) → take (min m n) xs ++ take (m - n) (drop n xs) ≡ take m xs
take-min-drop {A} zero n xs =
    let a : min 0 n ≡ 0 = omega arith in let b : 0 - n ≡ 0 = omega arith in rw (a, b) refl
take-min-drop {A} (suc m) zero xs =
    let a : min (suc m) 0 ≡ 0 = omega arith in
    let b : suc m - 0 ≡ suc m = omega arith in rw (a, b) refl
take-min-drop {A} (suc m) (suc n) [] =
    let a : min (suc m) (suc n) ≡ suc (min m n) = omega arith in rw a (take_nothing (suc m - suc n))
  where
    take_nothing : (k : ℕ) → take {A = A} k [] ≡ []
    take_nothing zero = refl
    take_nothing (suc k) = refl
take-min-drop {A} (suc m) (suc n) (x ∷ xs) =
    let a : min (suc m) (suc n) ≡ suc (min m n) = omega arith in
    let b : suc m - suc n ≡ m - n = omega arith in
    rw (a, b) (ap (λ (t : List A). x ∷ t) (take-min-drop m n xs))

pub append-take-drop {ℓ} : {A : Type ℓ} (n : ℕ) (xs : List A) → take n xs ++ drop n xs ≡ xs
append-take-drop zero xs = refl
append-take-drop (suc n) [] = refl
append-take-drop {A} (suc n) (x ∷ xs) = ap (λ (t : List A). x ∷ t) (append-take-drop n xs)

-- The front of two lists, in two pieces.
pub take-append-over {ℓ} :
    {A : Type ℓ} (n : ℕ) (xs ys : List A)
    → take n (xs ++ ys) ≡ take (min (length xs) n) xs ++ take (n - min (length xs) n) ys
take-append-over n [] ys =
    let a : min 0 n ≡ 0 = omega arith in let b : n - 0 ≡ n = omega arith in rw (a, b) refl
take-append-over zero (x ∷ xs) ys = let a : min (suc (length xs)) 0 ≡ 0 = omega arith in rw a refl
take-append-over {A} (suc n) (x ∷ xs) ys =
    let a : min (suc (length xs)) (suc n) ≡ suc (min (length xs) n) = omega arith in
    let b : suc n - suc (min (length xs) n) ≡ n - min (length xs) n = omega arith in
    rw (a, b) (ap (λ (t : List A). x ∷ t) (take-append-over n xs ys))

pub drop-length-append {ℓ} : {A : Type ℓ} (xs ys : List A) → drop (length xs) (xs ++ ys) ≡ ys
drop-length-append [] ys = refl
drop-length-append (x ∷ xs) ys = drop-length-append xs ys

pub get_or-length-append {ℓ} :
    {A : Type ℓ} (xs ys : List A) (y d : A) → get_or (xs ++ y ∷ ys) (length xs) d ≡ y
get_or-length-append [] ys y d = refl
get_or-length-append (x ∷ xs) ys y d = get_or-length-append xs ys y d
