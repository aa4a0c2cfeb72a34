-- ===== src/Compat/Signals.antt =====
-- The signal masks and sigaction of compat_bridge.c. A Bionic mask is a 32-bit word with bit n - 1 for
-- signal n; a host's set is a test of signal numbers.
pub mod Masks
use nfsmw_arm_linux.Prelude.{
  ℕ, zero, suc, ◌+◌, ◌*◌, ◌^◌, ◌-◌, Bool, true, false, not, ◌&&◌, ◌||◌, Option, none, some, List,
  [], ◌∷◌, if◌then◌else◌, ◌==◌, bit_and, bit_or, word_max,
}
use nfsmw_arm_linux.Elf.Format.{indices}

-- `sigset_t` as what `sigismember` answers.
abbrev pub SignalSet : Type 0
SignalSet = ℕ → Bool

-- `sigaddset`.
abbrev pub sigaddset : ℕ → SignalSet → SignalSet
sigaddset signal set n = n == signal || set n

-- `UINT32_C(1) << (index - 1)`.
abbrev pub signal_bit : ℕ → ℕ
signal_bit index = 2 ^ (index - 1)

-- The numbers 1, …, 32 of the loops.
abbrev pub signals : List ℕ
signals = indices 1 32

unfoldable pub add_signals : (guest_mask : ℕ) → List ℕ → SignalSet → SignalSet
add_signals guest_mask [] set = set
add_signals guest_mask (index ∷ rest) set =
    add_signals guest_mask rest
      (if not (bit_and guest_mask (signal_bit index) == 0) then sigaddset index set else set)

unfoldable pub host_mask_from_bionic : (guest_mask : ℕ) → SignalSet
host_mask_from_bionic guest_mask = add_signals guest_mask signals (λ _. false)

unfoldable pub collect_signals : SignalSet → List ℕ → (guest_mask : ℕ) → ℕ
collect_signals host_mask [] guest_mask = guest_mask
collect_signals host_mask (index ∷ rest) guest_mask =
    collect_signals host_mask rest
      (if host_mask index then bit_or guest_mask (signal_bit index) else guest_mask)

unfoldable pub bionic_mask_from_host : SignalSet → ℕ
bionic_mask_from_host host_mask = collect_signals host_mask signals 0

-- `struct bionic_sigaction`, and `struct sigaction` without a restorer.
pub record GuestAction : Type 0 where
  pub handler : ℕ
  pub mask : ℕ
  pub flags : ℕ
  pub restorer : ℕ

pub record HostAction : Type 0 where
  pub handler : ℕ
  pub mask : SignalSet
  pub flags : ℕ

abbrev pub sa_restorer : ℕ
sa_restorer = 0x04000000

-- `guest_action->flags & ~BIONIC_SA_RESTORER`, and the mask signal by signal.
unfoldable pub host_action : GuestAction → HostAction
host_action action = record {
  handler = action.handler;
  mask = host_mask_from_bionic action.mask;
  flags = bit_and action.flags (word_max - sa_restorer);
}

unfoldable pub guest_action : HostAction → GuestAction
guest_action action = record {
  handler = action.handler;
  mask = bionic_mask_from_host action.mask;
  flags = action.flags;
  restorer = 0;
}

-- `sigaction` and `sigprocmask` of the C library: given what to set, if anything, they give the result
-- and what was set before.
pub record SignalApi (H : Type 0) : Type 0 where
  pub sigaction : (signal : ℕ) → Option HostAction → H → H × (ℕ × HostAction)
  pub sigprocmask : (how : ℕ) → Option SignalSet → H → H × (ℕ × SignalSet)

abbrev pub map_option : {A B : Type 0} → (A → B) → Option A → Option B
map_option f none = none
map_option f (some a) = some (f a)

abbrev pub sig_setmask : ℕ
sig_setmask = 2

module _ {H : Type 0} (api : SignalApi H) where
  -- The result, and what is stored in `*old_action`, if anything; NULL is `none`.
  unfoldable pub compat_sigaction :
      (signal : ℕ) → Option GuestAction → (old_given : Bool) → H → H × (ℕ × Option GuestAction)
  compat_sigaction signal action old_given h =
      let (h', (result, old)) = api.sigaction signal (map_option host_action action) h in
      (h', (result, if result == 0 && old_given then some (guest_action old) else none))

  unfoldable pub compat_sigprocmask :
      (how : ℕ) → (guest_set : Option ℕ) → (old_given : Bool) → H → H × (ℕ × Option ℕ)
  compat_sigprocmask how guest_set old_given h =
      let (h', (result, old)) =
        api.sigprocmask how (map_option host_mask_from_bionic guest_set) h in
      (h', (result, if result == 0 && old_given then some (bionic_mask_from_host old) else none))

  unfoldable pub nfsmw_bionic_signal_mask_capture : H → H × ℕ
  nfsmw_bionic_signal_mask_capture h =
      let (h', (result, mask)) = api.sigprocmask sig_setmask none h in
      (h', if not (result == 0) then 0 else bionic_mask_from_host mask)

  unfoldable pub nfsmw_bionic_signal_mask_restore : (mask : ℕ) → H → H
  nfsmw_bionic_signal_mask_restore mask h =
      (api.sigprocmask sig_setmask (some (host_mask_from_bionic mask)) h).0
