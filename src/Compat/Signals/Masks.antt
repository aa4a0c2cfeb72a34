-- ===== src/Compat/Signals/Masks.antt =====
-- The conversions between Bionic's signal masks and the host's sets, for compat_bridge.c.
use nfsmw_arm_linux.Prelude.{
  ℕ, zero, suc, ◌+◌, ◌*◌, ◌/◌, ◌%◌, ◌^◌, ◌≤◌, ◌<◌, true, false, not, ◌&&◌, none, some,
  if◌then◌else◌, ◌==◌, bit_and, bit_or, arith, ◌≡◌, ◌≢◌, refl, ap, ◌∙◌, subst, fun_ext, Bool-cases,
  inl, inr,
}
use nfsmw_arm_linux.Prelude.Bits.{two-pow_pos}
use nfsmw_arm_linux.Prelude.Powers.{bit_and_power, bit_or_power, mod_power_step}
use nfsmw_arm_linux.Elf.Format.{indices}
use nfsmw_arm_linux.Compat.Signals.{
  SignalSet, sigaddset, signal_bit, add_signals, host_mask_from_bionic, collect_signals,
  bionic_mask_from_host, SignalApi, sig_setmask, nfsmw_bionic_signal_mask_capture,
  nfsmw_bionic_signal_mask_restore,
}
use native.Mathlib.Decide.{ℕ_discrete}
use native.Mathlib.Nat.{mod-eq_of_lt, mod-lt}

-- Digit k of a mask.
abbrev digit : (mask k : ℕ) → ℕ
digit mask k = mask / 2 ^ k % 2

-- The test of the loop in host_mask_from_bionic.
holds-digit : (mask k : ℕ) → not (bit_and mask (2 ^ k) == 0) ≡ (digit mask k == 1)
holds-digit mask k = elim (ℕ_discrete (digit mask k) 0) [
  | yes e ↦
      let nothing : bit_and mask (2 ^ k) ≡ 0 =
        omega (arith, bit_and_power k mask, ap (λ (t : ℕ). t * 2 ^ k) e) in
      rw (nothing, e) refl
  | no ne ↦
      let one : digit mask k ≡ 1 = omega arith in
      let power : bit_and mask (2 ^ k) ≡ 2 ^ k =
        omega (arith, bit_and_power k mask, ap (λ (t : ℕ). t * 2 ^ k) one) in
      let positive : 0 < 2 ^ k = two-pow_pos k in rw (power, one) (ground arith)
]

signal_bit-suc : (k : ℕ) → signal_bit (suc k) ≡ 2 ^ k
signal_bit-suc k = ap (λ (t : ℕ). 2 ^ t) (omega arith)

next_index : (k : ℕ) → suc k + 1 ≡ suc (suc k)
next_index k = omega arith

-- What one round of the loop leaves.
abbrev round : (first mask : ℕ) → SignalSet → SignalSet
round first mask set =
    if not (bit_and mask (signal_bit first) == 0) then sigaddset first set else set

round-other : (first mask n : ℕ) (set : SignalSet) → n ≢ first → round first mask set n ≡ set n
round-other first mask n set h = ground arith

round-same :
    (k mask : ℕ) (set : SignalSet)
    → set (suc k) ≡ false
    → round (suc k) mask set (suc k) ≡ (digit mask k == 1)
round-same k mask set clear =
    same (bit_and mask (signal_bit (suc k)))
    ∙ ap (λ (t : ℕ). not (bit_and mask t == 0)) (signal_bit-suc k)
    ∙ holds-digit mask k
  where
    same :
        (met : ℕ) → (if not (met == 0) then sigaddset (suc k) set else set) (suc k) ≡ not (met == 0)
    same met = elim (Bool-cases (not (met == 0))) [
      | inl e ↦ rw e (ground arith)
      | inr e ↦ rw e clear
    ]

-- What one round of the other loop leaves.
abbrev gather : (first : ℕ) → SignalSet → (mask : ℕ) → ℕ
gather first host_mask mask = if host_mask first then bit_or mask (signal_bit first) else mask

gather-digit :
    (k mask : ℕ) (host_mask : SignalSet)
    → host_mask (suc k) ≡ (digit mask k == 1)
    → gather (suc k) host_mask (mask % 2 ^ k) ≡ mask % 2 ^ suc k
gather-digit k mask host_mask agree = elim (ℕ_discrete (digit mask k) 1) [
  | yes e ↦
      let held : host_mask (suc k) ≡ true = agree ∙ ap (λ (t : ℕ). t == 1) e in
      rw held (
        ap (bit_or (mask % 2 ^ k)) (signal_bit-suc k)
        ∙ bit_or_power k (mask % 2 ^ k) (mod-lt (mask) (two-pow_pos k))
        ∙ omega (arith, mod_power_step k mask, ap (λ (t : ℕ). t * 2 ^ k) e))
  | no ne ↦
      let zero_of : digit mask k ≡ 0 = omega arith in
      let out : host_mask (suc k) ≡ false = agree ∙ ap (λ (t : ℕ). t == 1) zero_of in
      rw out (omega (arith, mod_power_step k mask, ap (λ (t : ℕ). t * 2 ^ k) zero_of))
]

-- Later rounds leave the signals of the earlier ones.
add_signals-below :
    (count first mask : ℕ) (set : SignalSet) (n : ℕ)
    → n < first
    → add_signals mask (indices first count) set n ≡ set n
unfolding add_signals indices
add_signals-below zero first mask set n h = refl
add_signals-below (suc count) first mask set n h =
    add_signals-below count (first + 1) mask (round first mask set) n (omega arith)
    ∙ round-other first mask n set (omega arith)

-- Signal j + 1 is in the set when digit j of the mask is set.
add_signals-at :
    (count k mask : ℕ) (set : SignalSet) (j : ℕ)
    → k ≤ j
    → j < k + count
    → set (suc j) ≡ false
    → add_signals mask (indices (suc k) count) set (suc j) ≡ (digit mask j == 1)
unfolding add_signals indices
add_signals-at zero k mask set j low high clear = absurd (omega arith)
add_signals-at (suc count) k mask set j low high clear = elim (ℕ_discrete k j) [
  | yes e ↦
      let reached : add_signals mask (indices (suc k) (suc count)) set (suc k)
          ≡ (digit mask k == 1) =
        add_signals-below count (suc k + 1) mask (round (suc k) mask set) (suc k) (omega arith)
        ∙ round-same k mask set (ap (λ (t : ℕ). set (suc t)) e ∙ clear) in
      subst
        (λ (t : ℕ).
          add_signals mask (indices (suc k) (suc count)) set (suc t) ≡ (digit mask t == 1))
        e reached
  | no ne ↦
      ap (λ (t : ℕ). add_signals mask (indices t count) (round (suc k) mask set) (suc j))
        (next_index k)
      ∙ add_signals-at count (suc k) mask (round (suc k) mask set) j (omega arith) (omega arith)
          (round-other (suc k) mask (suc j) set (omega arith) ∙ clear)
]

collect_signals-digits :
    (count k mask : ℕ) (host_mask : SignalSet)
    → ((j : ℕ) → k ≤ j → j < k + count → host_mask (suc j) ≡ (digit mask j == 1))
    → collect_signals host_mask (indices (suc k) count) (mask % 2 ^ k) ≡ mask % 2 ^ (k + count)
unfolding collect_signals indices
collect_signals-digits zero k mask host_mask agree = ap (λ (t : ℕ). mask % 2 ^ t) (omega arith)
collect_signals-digits (suc count) k mask host_mask agree =
    let gathered = gather-digit k mask host_mask (agree k (omega arith) (omega arith)) in
    let shift : suc k + count ≡ k + suc count = omega arith in
    ap
      (λ (t : ℕ).
        collect_signals host_mask (indices t count) (gather (suc k) host_mask (mask % 2 ^ k)))
      (next_index k)
    ∙ ap (collect_signals host_mask (indices (suc (suc k)) count)) gathered
    ∙ collect_signals-digits count (suc k) mask host_mask
        (λ j low high. agree j (omega arith) (omega arith))
    ∙ ap (λ (t : ℕ). mask % 2 ^ t) shift

host_mask-digit : (mask j : ℕ) → j < 32 → host_mask_from_bionic mask (suc j) ≡ (digit mask j == 1)
unfolding host_mask_from_bionic
host_mask-digit mask j h = add_signals-at 32 0 mask (λ _. false) j (omega arith) h refl

-- A 32-bit mask comes back from the host's set.
pub bionic_mask-host_mask :
    (mask : ℕ) → mask < 2 ^ 32 → bionic_mask_from_host (host_mask_from_bionic mask) ≡ mask
unfolding bionic_mask_from_host
bionic_mask-host_mask mask h =
    let start : 0 ≡ mask % 2 ^ 0 = omega arith in
    ap (collect_signals (host_mask_from_bionic mask) (indices 1 32)) start
    ∙ collect_signals-digits 32 0 mask (host_mask_from_bionic mask)
        (λ j low high. host_mask-digit mask j high)
    ∙ mod-eq_of_lt h

module _ {H : Type 0} (api : SignalApi H) where
  -- Where sigprocmask reports after SIG_SETMASK the set that was asked for, less the signals that cannot
  -- be blocked, a capture after a restore gives the restored mask, if that holds none of these.
  pub capture-restore :
      (unblockable : SignalSet) (mask : ℕ) (h : H)
      → ((set : SignalSet) (h : H)
          → (api.sigprocmask sig_setmask none (api.sigprocmask sig_setmask (some set) h).0).1
            ≡ (0, λ n. set n && not (unblockable n)))
      → mask < 2 ^ 32
      → ((n : ℕ) → host_mask_from_bionic mask n ≡ true → unblockable n ≡ false)
      → (nfsmw_bionic_signal_mask_capture api (nfsmw_bionic_signal_mask_restore api mask h)).1
        ≡ mask
  unfolding nfsmw_bionic_signal_mask_capture nfsmw_bionic_signal_mask_restore
  capture-restore unblockable mask h documented bound free =
      rw (documented (host_mask_from_bionic mask) h)
        (ap bionic_mask_from_host (fun_ext kept) ∙ bionic_mask-host_mask mask bound)
    where
      kept :
          (n : ℕ)
          → (host_mask_from_bionic mask n && not (unblockable n)) ≡ host_mask_from_bionic mask n
      kept n = elim (Bool-cases (host_mask_from_bionic mask n)) [
        | inl e ↦ rw (e, free n e) refl
        | inr e ↦ rw e refl
      ]
