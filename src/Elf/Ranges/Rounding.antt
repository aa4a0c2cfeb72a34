-- ===== src/Elf/Ranges/Rounding.antt =====
-- align_down and align_up round to multiples of a power of two.
use nfsmw_arm_linux.Prelude.{
  ℕ, ◌+◌, ◌-◌, ◌*◌, ◌/◌, ◌%◌, ◌^◌, ◌≤◌, ◌<◌, ◌≡◌, ◌↔◌, ap, ◌∙◌, none, some, arith, sub32, add32,
  ltb, if◌then◌else◌, Bool-cases, inl, inr, true, false,
}
use nfsmw_arm_linux.Prelude.Bits.{bit_and_high, two-pow_pos, two-pow_le, two-pow-split}
use native.Mathlib.Decide.{dec_lt}
use native.Mathlib.Nat.{div-add-mod, mul_comm, mod-lt, mul-le-mul_right, mul-mod_left}
use nfsmw_arm_linux.Elf.Ranges.{align_down, align_up, complement}

-- Multiples of a positive p, with p a variable.
times_step : (p a b : ℕ) → a < b → a * p + p ≤ b * p
times_step p a b h = grind arith

quotient : (p a : ℕ) → 0 < p → a % p ≡ 0 → a ≡ a / p * p
quotient p a pos h = omega (arith, div-add-mod a p, mul_comm p (a / p))

last_below : (p t r : ℕ) → 0 < p → r % p ≡ 0 → r < t * p → r + p ≤ t * p
last_below p t r pos m h =
    omega (arith, quotient p r pos m, times_step p (r / p) t (below (dec_lt (r / p) t)))
  where
    below : Dec (r / p < t) → r / p < t
    below (yes l) = l
    below (no n) = absurd (omega (arith, quotient p r pos m, mul-le-mul_right p (not-lt n)))
      where
        not-lt : ¬ (r / p < t) → t ≤ r / p
        not-lt n' = omega arith

multiple_unique :
    (p v a b : ℕ) → 0 < p → a % p ≡ 0 → b % p ≡ 0 → v ≤ a → a < v + p → v ≤ b → b < v + p → a ≡ b
multiple_unique p v a b pos ma mb la ha lb hb = elim (dec_lt (a / p) (b / p)) [
  | yes l ↦
      absurd
        (omega (arith, quotient p a pos ma, quotient p b pos mb, times_step p (a / p) (b / p) l))
  | no n ↦ elim (dec_lt (b / p) (a / p)) [
    | yes l ↦
        absurd
          (omega (arith, quotient p a pos ma, quotient p b pos mb, times_step p (b / p) (a / p) l))
    | no n' ↦ omega (
      arith,
      quotient p a pos ma,
      quotient p b pos mb,
      ap (λ (t : ℕ). t * p) (let e : a / p ≡ b / p = omega arith in e),
    )
  ]
]

times-mod : (p t : ℕ) → t * p % p ≡ 0
times-mod p t = mul-mod_left t p

round_up_bounds : (p v : ℕ) → 0 < p → (v ≤ (v + (p - 1)) / p * p) × ((v + (p - 1)) / p * p < v + p)
round_up_bounds p v pos = (
  omega (
    arith,
    div-add-mod (v + (p - 1)) p,
    mul_comm p ((v + (p - 1)) / p),
    mod-lt (v + (p - 1)) pos,
  ),
  omega (arith, div-add-mod (v + (p - 1)) p, mul_comm p ((v + (p - 1)) / p)),
)

round_up_le : (v p : ℕ) → 0 < p → (v + (p - 1)) / p * p ≤ v + (p - 1)
round_up_le v p pos = omega (arith, div-add-mod (v + (p - 1)) p, mul_comm p ((v + (p - 1)) / p))

mask_lem : (k : ℕ) → k ≤ 32 → sub32 (2 ^ k) 1 ≡ 2 ^ k - 1
mask_lem k h = omega (arith, two-pow_pos k, two-pow_le k 32 h)

complement-mask : (k : ℕ) → k ≤ 32 → complement (2 ^ k - 1) ≡ 2 ^ 32 - 2 ^ k
complement-mask k h = omega (arith, two-pow_pos k, two-pow_le k 32 h)

pub align_down_lem :
    (value k : ℕ) → k ≤ 32 → value < 2 ^ 32 → align_down value (2 ^ k) ≡ value / 2 ^ k * 2 ^ k
unfolding align_down
align_down_lem value k h v = rw (mask_lem k h, complement-mask k h) (bit_and_high k 32 value h v)

pub align_up_lem :
    (value k : ℕ)
    → k ≤ 32
    → value < 2 ^ 32
    → align_up value (2 ^ k)
      ≡ (if ltb (2 ^ 32 - 2 ^ k) value then none else some ((value + (2 ^ k - 1)) / 2 ^ k * 2 ^ k))
unfolding align_up
align_up_lem value k h v =
    rw (mask_lem k h, complement-mask k h)
      (elim (Bool-cases (ltb (2 ^ 32 - 2 ^ k) value)) [
        | inl e ↦ rw e
        | inr e ↦ rw e (rw (no_wrap e) (ap some (bit_and_high k 32 _ h (small e))))
      ])
  where
    no_wrap : ltb (2 ^ 32 - 2 ^ k) value ≡ false → add32 value (2 ^ k - 1) ≡ value + (2 ^ k - 1)
    no_wrap e = ground (arith, two-pow_pos k, two-pow_le k 32 h)

    small : ltb (2 ^ 32 - 2 ^ k) value ≡ false → value + (2 ^ k - 1) < 2 ^ 32
    small e = ground (arith, two-pow_pos k, two-pow_le k 32 h)

align_up-big :
    (value k : ℕ)
    → k ≤ 32
    → value < 2 ^ 32
    → ltb (2 ^ 32 - 2 ^ k) value ≡ true
    → align_up value (2 ^ k) ≡ none
align_up-big value k h v e = rw (align_up_lem value k h v, e)

align_up-fits :
    (value k : ℕ)
    → k ≤ 32
    → value < 2 ^ 32
    → ltb (2 ^ 32 - 2 ^ k) value ≡ false
    → align_up value (2 ^ k) ≡ some ((value + (2 ^ k - 1)) / 2 ^ k * 2 ^ k)
align_up-fits value k h v e = rw (align_up_lem value k h v, e)

-- The multiple of 2^k that stands at or next above a value, where it is a 32-bit word.
pub record RoundsUp (value k result : ℕ) : Type 0 where
  pub at_least : value ≤ result
  pub nearest : result < value + 2 ^ k
  pub multiple : result % 2 ^ k ≡ 0
  pub word : result < 4294967296

last_multiple : (k r : ℕ) → k ≤ 32 → r % 2 ^ k ≡ 0 → r < 2 ^ 32 → r ≤ 2 ^ 32 - 2 ^ k
last_multiple k r h m w =
    let (t, e) = two-pow-split k 32 h in
    omega (arith, last_below (2 ^ k) t r (two-pow_pos k) m (omega arith))

pub align_up-RoundsUp :
    (value k result : ℕ)
    → k ≤ 32
    → value < 2 ^ 32
    → align_up value (2 ^ k) ≡ some result
    → RoundsUp value k result
align_up-RoundsUp value k result h v e = elim (Bool-cases (ltb (2 ^ 32 - 2 ^ k) value)) [
  | inl big ↦ absurd (cc (e, align_up-big value k h v big))
  | inr fits ↦
      let q : ℕ = (value + (2 ^ k - 1)) / 2 ^ k * 2 ^ k in
      let is : q ≡ result = cc (e, align_up-fits value k h v fits) in
      let bounds = round_up_bounds (2 ^ k) value (two-pow_pos k) in
      record {
        at_least = omega arith;
        nearest = omega arith;
        multiple = rw (← is) (times-mod (2 ^ k) ((value + (2 ^ k - 1)) / 2 ^ k));
        word = ground (arith, round_up_le value (2 ^ k) (two-pow_pos k), two-pow_le k 32 h);
      }
]

RoundsUp-align_up :
    (value k result : ℕ)
    → k ≤ 32
    → value < 2 ^ 32
    → RoundsUp value k result
    → align_up value (2 ^ k) ≡ some result
RoundsUp-align_up value k result h v r =
    align_up_lem value k h v ∙ (elim (Bool-cases (ltb (2 ^ 32 - 2 ^ k) value)) [
      | inl big ↦
          absurd (ground (arith, last_multiple k result h r.multiple r.word, two-pow_le k 32 h))
      | inr fits ↦ rw fits (
          ap some (
            multiple_unique (2 ^ k) value _ result (two-pow_pos k)
              (times-mod (2 ^ k) ((value + (2 ^ k - 1)) / 2 ^ k)) r.multiple bounds.0 bounds.1
              r.at_least r.nearest))
    ])
  where
    bounds :
        (value ≤ (value + (2 ^ k - 1)) / 2 ^ k * 2 ^ k)
        × ((value + (2 ^ k - 1)) / 2 ^ k * 2 ^ k < value + 2 ^ k)
    bounds = round_up_bounds (2 ^ k) value (two-pow_pos k)

-- For a word and a power of two up to 2^32, align_up returns a result exactly if that result is the
-- least multiple at or above the word, and this multiple is itself a 32-bit word.
pub align_up-some_iff :
    (value k result : ℕ)
    → k ≤ 32
    → value < 2 ^ 32
    → (align_up value (2 ^ k) ≡ some result) ↔ RoundsUp value k result
align_up-some_iff value k result h v =
    (align_up-RoundsUp value k result h v, RoundsUp-align_up value k result h v)

-- For a word and a power of two up to 2^32, align_down returns the greatest multiple at or below the
-- word.
pub align_down_bounds :
    (value k : ℕ)
    → k ≤ 32
    → value < 2 ^ 32
    → (align_down value (2 ^ k) ≤ value)
      × (value < align_down value (2 ^ k) + 2 ^ k)
      × (align_down value (2 ^ k) % 2 ^ k ≡ 0)
align_down_bounds value k h v = rw (align_down_lem value k h v) (
  omega (arith, div-add-mod value (2 ^ k), mul_comm (2 ^ k) (value / 2 ^ k)),
  omega (
    arith,
    div-add-mod value (2 ^ k),
    mul_comm (2 ^ k) (value / 2 ^ k),
    mod-lt value (two-pow_pos k),
  ),
  times-mod (2 ^ k) (value / 2 ^ k),
)
