-- ===== src/Prelude/Bits.antt =====
-- `bit_and` with masks at variables.
use Prim.Native.Nat.{
  ℕ, zero, suc, ◌+◌, ◌*◌, ◌-◌, ◌/◌, ◌%◌, ◌^◌, ◌≤◌, ◌<◌, min, bit_and, digits, bit_and-bitwise,
}
use mathlib.Core.Path.{◌≡◌, refl, ap, sym, ◌∙◌}
use mathlib.Core.Logic.{◌≢◌}
use native.Mathlib.Decide.{ℕ_discrete}
use native.Mathlib.Nat.{pow-suc, pow-succ', div-div-eq-div-mul}
use native.Mathlib.Omega.{arith}

-- `bit_and` looks at as many places as its left operand says; more of them change nothing.
abbrev meet : (right left places : ℕ) → ℕ
meet right left places = digits (λ _. 0) min places left right

meet-nothing : (right places : ℕ) → meet right 0 places ≡ 0
meet-nothing right zero = refl
meet-nothing right (suc places) = refl

meet-spare :
    (places right left spare : ℕ)
    → left ≤ places
    → meet right left (spare + places) ≡ meet right left places
meet-spare places right zero spare h =
    meet-nothing right (spare + places) ∙ sym (meet-nothing right places)
meet-spare zero right (suc left) spare h = absurd (omega arith)
meet-spare (suc places) right (suc left) spare h =
    let shift : spare + suc places ≡ suc (spare + places) = omega arith in
    ap (meet right (suc left)) shift
    ∙ ap (λ (t : ℕ). t * 2 + min (suc left % 2) (right % 2))
        (meet-spare places (right / 2) (suc left / 2) spare (omega arith))

pub zero-bit_and : (right : ℕ) → bit_and 0 right ≡ 0
zero-bit_and = bit_and-bitwise 0

pub bit_and_step :
    (left right : ℕ)
    → bit_and left right ≡ bit_and (left / 2) (right / 2) * 2 + min (left % 2) (right % 2)
bit_and_step zero right = rw (zero-bit_and right, zero-bit_and (right / 2)) (omega arith)
bit_and_step (suc left) right =
    let half = suc left / 2 in
    let spare : left ≡ (left - half) + half = omega arith in
    let halves : meet (right / 2) half left ≡ bit_and half (right / 2) =
      ap (meet (right / 2) half) spare
      ∙ meet-spare half (right / 2) half (left - half) (omega arith)
      ∙ sym (bit_and-bitwise half (right / 2)) in
    bit_and-bitwise (suc left) right ∙ ap (λ (t : ℕ). t * 2 + min (suc left % 2) (right % 2)) halves

pub two-pow-suc : (w : ℕ) → 2 ^ suc w ≡ 2 ^ w * 2
two-pow-suc w = pow-suc 2 w

pub two-pow_pos : (w : ℕ) → 0 < 2 ^ w
two-pow_pos zero = omega arith
two-pow_pos (suc w) = omega (arith, two-pow-suc w, two-pow_pos w)

bit_and_self_fuel : (n a : ℕ) → a ≤ n → bit_and a a ≡ a
bit_and_self_fuel zero zero h = zero-bit_and 0
bit_and_self_fuel zero (suc a) h = absurd (omega arith)
bit_and_self_fuel (suc n) zero h = zero-bit_and 0
bit_and_self_fuel (suc n) (suc a) h =
    omega (arith, bit_and_step (suc a) (suc a), bit_and_self_fuel n (suc a / 2) (omega arith))

pub bit_and_self : (a : ℕ) → bit_and a a ≡ a
bit_and_self a = bit_and_self_fuel a a (omega arith)

-- All ones in w places keep a number of w places.
pub bit_and_ones : (w a : ℕ) → a < 2 ^ w → bit_and a (2 ^ w - 1) ≡ a
bit_and_ones zero a h = omega (arith, ap (λ (t : ℕ). bit_and t 0) zero_of, zero-bit_and 0)
  where
    zero_of : a ≡ 0
    zero_of = omega arith
bit_and_ones (suc w) a h =
    rw (bit_and_step, halves, low)
      (omega (arith, two-pow-suc w, two-pow_pos w, bit_and_ones w (a / 2) below))
  where
    below : a / 2 < 2 ^ w
    below = omega (arith, two-pow-suc w)

    halves : (2 ^ suc w - 1) / 2 ≡ 2 ^ w - 1
    halves = omega (arith, two-pow-suc w, two-pow_pos w)

    low : (2 ^ suc w - 1) % 2 ≡ 1
    low = omega (arith, two-pow-suc w, two-pow_pos w)

pub two-pow_le : (k w : ℕ) → k ≤ w → 2 ^ k ≤ 2 ^ w
two-pow_le zero w h = two-pow_pos w
two-pow_le (suc k) zero h = absurd (omega arith)
two-pow_le (suc k) (suc w) h =
    omega (arith, two-pow-suc k, two-pow-suc w, two-pow_le k w (omega arith))

-- Ones in the places k to w clear the k lowest places.
pub bit_and_high : (k w a : ℕ) → k ≤ w → a < 2 ^ w → bit_and a (2 ^ w - 2 ^ k) ≡ a / 2 ^ k * 2 ^ k
bit_and_high zero w a h l = omega (arith, bit_and_ones w a l)
bit_and_high (suc k) zero a h l = absurd (omega arith)
bit_and_high (suc k) (suc w) a h l =
    rw (bit_and_step, halves, low, bit_and_high k w (a / 2) (omega arith) below, shift)
      (omega (arith, ap (λ (t : ℕ). a / 2 / 2 ^ k * t) (two-pow-suc k)))
  where
    below : a / 2 < 2 ^ w
    below = omega (arith, two-pow-suc w)

    halves : (2 ^ suc w - 2 ^ suc k) / 2 ≡ 2 ^ w - 2 ^ k
    halves = omega (arith, two-pow-suc w, two-pow-suc k)

    low : (2 ^ suc w - 2 ^ suc k) % 2 ≡ 0
    low = omega (arith, two-pow-suc w, two-pow-suc k)

    shift : a / 2 ^ suc k ≡ a / 2 / 2 ^ k
    shift = ap (λ (t : ℕ). a / t) (pow-succ' 2 k) ∙ sym (div-div-eq-div-mul a 2 (2 ^ k))

-- The usual test for a power of two.
pub power_of_two : (n m : ℕ) → m ≤ n → 0 < m → bit_and m (m - 1) ≡ 0 → (k : ℕ) × (m ≡ 2 ^ k)
power_of_two zero m le pos clear = absurd (omega arith)
power_of_two (suc n) m le pos clear = elim (ℕ_discrete (m % 2) 0) [
  | yes even ↦
      let (k, e) = power_of_two n (m / 2) (omega arith) (omega arith) (half_clear even) in
      (suc k, omega (arith, two-pow-suc k))
  | no odd ↦ (0, omega (arith, odd_half odd, bit_and_self (m / 2)))
]
  where
    half_clear : m % 2 ≡ 0 → bit_and (m / 2) (m / 2 - 1) ≡ 0
    half_clear even = omega (arith, bit_and_step m (m - 1), ap (bit_and (m / 2)) (down even))
      where
        down : m % 2 ≡ 0 → (m - 1) / 2 ≡ m / 2 - 1
        down even' = omega arith

    odd_half : m % 2 ≢ 0 → bit_and (m / 2) (m / 2) ≡ 0
    odd_half odd = omega (arith, bit_and_step m (m - 1), ap (bit_and (m / 2)) down)
      where
        down : (m - 1) / 2 ≡ m / 2
        down = omega arith

pub two-pow-split : (k w : ℕ) → k ≤ w → (t : ℕ) × (2 ^ w ≡ t * 2 ^ k)
two-pow-split zero w h = (2 ^ w, omega arith)
two-pow-split (suc k) zero h = absurd (omega arith)
two-pow-split (suc k) (suc w) h =
    let (t, e) = two-pow-split k w (omega arith) in
    (t, omega (arith, two-pow-suc k, two-pow-suc w, ap (λ (n : ℕ). t * n) (two-pow-suc k)))
