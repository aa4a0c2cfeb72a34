-- ===== src/Prelude/Powers.antt =====
-- One binary digit: `bit_and` and `bit_or` with a power of two.
use Prim.Native.Nat.{
  ℕ, zero, suc, ◌+◌, ◌*◌, ◌-◌, ◌/◌, ◌%◌, ◌^◌, ◌≤◌, ◌<◌, max, bit_and, bit_or, digits,
  bit_or-bitwise,
}
use mathlib.Core.Path.{◌≡◌, refl, ap, sym, ◌∙◌}
use native.Mathlib.Nat.{pow-suc, pow-succ', div-div-eq-div-mul, div-add-mod}
use native.Mathlib.Omega.{arith}
use nfsmw_arm_linux.Prelude.Bits.{bit_and_step, two-pow-suc, zero-bit_and}

abbrev join : (right left places : ℕ) → ℕ
join right left places = digits (λ b. b) max places left right

join-nothing : (right places : ℕ) → join right 0 places ≡ right
join-nothing right zero = refl
join-nothing right (suc places) = refl

join-spare :
    (places right left spare : ℕ)
    → left ≤ places
    → join right left (spare + places) ≡ join right left places
join-spare places right zero spare h =
    join-nothing right (spare + places) ∙ sym (join-nothing right places)
join-spare zero right (suc left) spare h = absurd (omega arith)
join-spare (suc places) right (suc left) spare h =
    let shift : spare + suc places ≡ suc (spare + places) = omega arith in
    ap (join right (suc left)) shift
    ∙ ap (λ (t : ℕ). t * 2 + max (suc left % 2) (right % 2))
        (join-spare places (right / 2) (suc left / 2) spare (omega arith))

pub zero-bit_or : (right : ℕ) → bit_or 0 right ≡ right
zero-bit_or = bit_or-bitwise 0

pub bit_or_step :
    (left right : ℕ)
    → bit_or left right ≡ bit_or (left / 2) (right / 2) * 2 + max (left % 2) (right % 2)
bit_or_step zero right = rw (zero-bit_or right, zero-bit_or (right / 2)) (omega arith)
bit_or_step (suc left) right =
    let half = suc left / 2 in
    let spare : left ≡ (left - half) + half = omega arith in
    let halves : join (right / 2) half left ≡ bit_or half (right / 2) =
      ap (join (right / 2) half) spare
      ∙ join-spare half (right / 2) half (left - half) (omega arith)
      ∙ sym (bit_or-bitwise half (right / 2)) in
    bit_or-bitwise (suc left) right ∙ ap (λ (t : ℕ). t * 2 + max (suc left % 2) (right % 2)) halves

half_power : (k : ℕ) → (2 ^ suc k) / 2 ≡ 2 ^ k
half_power k = omega (arith, two-pow-suc k)

even_power : (k : ℕ) → (2 ^ suc k) % 2 ≡ 0
even_power k = omega (arith, two-pow-suc k)

shift_power : (k a : ℕ) → a / 2 ^ suc k ≡ a / 2 / 2 ^ k
shift_power k a = ap (λ (t : ℕ). a / t) (pow-succ' 2 k) ∙ sym (div-div-eq-div-mul a 2 (2 ^ k))

and_nothing : (a : ℕ) → bit_and a 0 ≡ 0
and_nothing a = and_nothing_fuel a a (omega arith)
  where
    and_nothing_fuel : (n a : ℕ) → a ≤ n → bit_and a 0 ≡ 0
    and_nothing_fuel n zero h = zero-bit_and 0
    and_nothing_fuel zero (suc a) h = absurd (omega arith)
    and_nothing_fuel (suc n) (suc a) h =
        omega (arith, bit_and_step (suc a) 0, and_nothing_fuel n (suc a / 2) (omega arith))

-- Place k of a number.
pub bit_and_power : (k a : ℕ) → bit_and a (2 ^ k) ≡ a / 2 ^ k % 2 * 2 ^ k
bit_and_power zero a = omega (arith, bit_and_step a 1, and_nothing (a / 2))
bit_and_power (suc k) a =
    rw (bit_and_step, half_power k, even_power k, bit_and_power k (a / 2), shift_power k a)
      (omega (arith, ap (λ (t : ℕ). a / 2 / 2 ^ k % 2 * t) (two-pow-suc k)))

-- Joining a place above all that are used adds it.
pub bit_or_power : (k a : ℕ) → a < 2 ^ k → bit_or a (2 ^ k) ≡ a + 2 ^ k
bit_or_power zero zero h = zero-bit_or 1
bit_or_power zero (suc a) h = absurd (omega arith)
bit_or_power (suc k) a h =
    rw (bit_or_step, half_power k, even_power k)
      (omega (arith, bit_or_power k (a / 2) (omega (arith, two-pow-suc k)), two-pow-suc k))

-- The places below k + 1 are those below k and place k.
pub mod_power_step : (k a : ℕ) → a % 2 ^ suc k ≡ a % 2 ^ k + a / 2 ^ k % 2 * 2 ^ k
mod_power_step k a =
    let q = a / 2 ^ k in
    let digit : q * 2 ^ k ≡ q / 2 * 2 ^ suc k + q % 2 * 2 ^ k =
      omega (arith, split q (2 ^ k), ap (λ (t : ℕ). q / 2 * t) (two-pow-suc k)) in
    omega (
      arith,
      whole a (2 ^ k),
      whole a (2 ^ suc k),
      digit,
      ap (λ (t : ℕ). t * 2 ^ suc k) (shift_half k a),
    )
  where
    split : (q d : ℕ) → q * d ≡ q / 2 * (d * 2) + q % 2 * d
    split q d =
        let two : q ≡ q / 2 * 2 + q % 2 = omega arith in ap (λ (t : ℕ). t * d) two ∙ omega arith

    whole : (a d : ℕ) → a ≡ a / d * d + a % d
    whole a d = omega (arith, div-add-mod a d)

    shift_half : (k a : ℕ) → a / 2 ^ suc k ≡ a / 2 ^ k / 2
    shift_half k a = ap (λ (t : ℕ). a / t) (pow-suc 2 k) ∙ sym (div-div-eq-div-mul a (2 ^ k) 2)

or_nothing_fuel : (n a : ℕ) → a ≤ n → bit_or a 0 ≡ a
or_nothing_fuel n zero h = zero-bit_or 0
or_nothing_fuel zero (suc a) h = absurd (omega arith)
or_nothing_fuel (suc n) (suc a) h =
    omega (arith, bit_or_step (suc a) 0, or_nothing_fuel n (suc a / 2) (omega arith))

pub bit_or-zero : (a : ℕ) → bit_or a 0 ≡ a
bit_or-zero a = or_nothing_fuel a a (omega arith)

-- Joining the lowest k places with a number that has none of them adds them.
pub bit_or_low : (k high low : ℕ) → low < 2 ^ k → bit_or (high * 2 ^ k) low ≡ high * 2 ^ k + low
bit_or_low zero high low h = ap (bit_or (high * 1)) nothing ∙ bit_or-zero (high * 1) ∙ omega arith
  where
    nothing : low ≡ 0
    nothing = omega arith
bit_or_low (suc k) high low h = omega (
  arith,
  bit_or_step (high * 2 ^ suc k) low,
  ap (λ (t : ℕ). bit_or t (low / 2)) halves,
  bit_or_low k high (low / 2) (omega (arith, two-pow-suc k)),
  doubled,
)
  where
    doubled : high * 2 ^ suc k ≡ high * 2 ^ k * 2
    doubled = ap (λ (t : ℕ). high * t) (two-pow-suc k) ∙ omega arith

    halves : high * 2 ^ suc k / 2 ≡ high * 2 ^ k
    halves = omega (arith, doubled)
