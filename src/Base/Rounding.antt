-- ===== src/Base/Rounding.antt =====
-- `Math.round(a / b)` and the rounding of `toFixed`: a half goes up. The quotient is taken as exact.
use Prim.Native.Nat.{ℕ, ◌+◌, ◌*◌, ◌/◌, ◌≤◌, ◌<◌}
use mathlib.Core.Path.{◌≡◌}
use native.Mathlib.Nat.{le-div_iff_mul-le, div-lt_iff_lt-mul, div-mul-le_self, lt-div-mul-add}
use native.Mathlib.Omega.{arith}

abbrev pub round_div : ℕ → ℕ → ℕ
round_div a b = (2 * a + b) / (2 * b)

pub round_div_le : (a b k : ℕ) → 0 < b → a ≤ k * b → round_div a b ≤ k
round_div_le a b k h g =
    let below : round_div a b < k + 1 =
      (div-lt_iff_lt-mul {k = 2 * b} {x = 2 * a + b} {y = k + 1} (omega arith)).1 (omega arith) in
    omega arith

pub le_round_div : (a b k : ℕ) → 0 < b → k * b ≤ a → k ≤ round_div a b
le_round_div a b k h g =
    (le-div_iff_mul-le {k = 2 * b} {x = k} {y = 2 * a + b} (omega arith)).1 (omega arith)

pub round_div_mono : (a c b : ℕ) → 0 < b → a ≤ c → round_div a b ≤ round_div c b
round_div_mono a c b h g =
    let q = round_div a b in
    let low : q * (2 * b) ≤ 2 * a + b = div-mul-le_self (2 * a + b) (2 * b) in
    (le-div_iff_mul-le {k = 2 * b} {x = q} {y = 2 * c + b} (omega arith)).1 (omega arith)

pub round_div_exact : (b k : ℕ) → 0 < b → round_div (k * b) b ≡ k
round_div_exact b k h =
    let low : k ≤ round_div (k * b) b = le_round_div (k * b) b k h (omega arith) in
    let high : round_div (k * b) b ≤ k = round_div_le (k * b) b k h (omega arith) in omega arith

-- It is off by a half at most.
abbrev pub Near : ℕ → ℕ → ℕ → Type 0
Near q a b = (2 * (q * b) ≤ 2 * a + b) × (2 * a < 2 * (q * b) + b)

pub round_div-Near : (a b : ℕ) → 0 < b → Near (round_div a b) a b
round_div-Near a b h =
    let q = round_div a b in
    let low : q * (2 * b) ≤ 2 * a + b = div-mul-le_self (2 * a + b) (2 * b) in
    let high : 2 * a + b < q * (2 * b) + 2 * b =
      lt-div-mul-add {a = 2 * a + b} {b = 2 * b} (omega arith) in
    (omega arith, omega arith)
