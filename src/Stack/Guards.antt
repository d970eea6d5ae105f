-- ===== src/Stack/Guards.antt =====
-- `is_in_any_guard` (src/stack.rs).
use iso_light_k.Common.{
  ℕ, zero, suc, ◌≤◌, ◌<◌, ◌≡◌, ◌↔◌, refl, true, leb, ltb, ◌&&◌, some, List, [], ◌∷◌, get_elem?, inl,
  inr, Bool-cases, arith,
}
use iso_light_k.Stack.{Range, is_in_any_guard}

-- The guard at some place of the list holds the address.
abbrev pub IsGuarded : ℕ → List Range → Type 0
IsGuarded va ranges =
    (i : ℕ) × (g : Range) × (get_elem? ranges i ≡ some g) × (g.0 ≤ va) × (va < g.1)

is_in_any_guard-IsGuarded :
    (va : ℕ) (ranges : List Range) → is_in_any_guard va ranges ≡ true → IsGuarded va ranges
unfolding is_in_any_guard
is_in_any_guard-IsGuarded va [] h = absurd (ground arith)
is_in_any_guard-IsGuarded va (g ∷ gs) h = elim (Bool-cases (leb g.0 va && ltb va g.1)) [
  | inl y ↦ (0, g, refl, ground arith, ground arith)
  | inr n ↦
      let (i, g', at, above, below) = is_in_any_guard-IsGuarded va gs (ground arith) in
      (suc i, g', at, above, below)
]

IsGuarded-is_in_any_guard :
    (va : ℕ) (ranges : List Range) → IsGuarded va ranges → is_in_any_guard va ranges ≡ true
unfolding is_in_any_guard
IsGuarded-is_in_any_guard va [] (i, g, at, above, below) = absurd (ground arith)
IsGuarded-is_in_any_guard va (g ∷ gs) (zero, g', at, above, below) =
    let same : g ≡ g' = cc in
    let low : g.0 ≤ va = rw same above in let high : va < g.1 = rw same below in ground arith
IsGuarded-is_in_any_guard va (g ∷ gs) (suc i, g', at, above, below) =
    let later = IsGuarded-is_in_any_guard va gs (i, g', at, above, below) in ground arith

-- An address is in some guard exactly when a guard of the list holds it, its end excluded.
pub is_in_any_guard_iff :
    (va : ℕ) (ranges : List Range) → (is_in_any_guard va ranges ≡ true) ↔ IsGuarded va ranges
is_in_any_guard_iff va ranges =
    (is_in_any_guard-IsGuarded va ranges, IsGuarded-is_in_any_guard va ranges)
