-- ===== src/Compat/Semaphore.antt =====
-- The semaphores of compat_bridge.c.
use nfsmw_arm_linux.Prelude.{
  ℕ, Bool, true, false, not, Option, none, some, if◌then◌else◌, ◌==◌, word_max,
}
use nfsmw_arm_linux.Compat.Slots.{
  Space, Objects, set_guest_slot, slot_get, apply_host, destroy_host,
}
use nfsmw_arm_linux.Compat.Condition.{Timespec}

-- The result -1, as a 32-bit word.
abbrev pub failed : ℕ
failed = word_max

-- `sem_wait`, `sem_post`, `sem_trywait`, `sem_getvalue` and `sem_timedwait` of the C library;
-- `sem_getvalue` also tells what it stores, if anything.
pub record SemaphoreApi (H : Type 0) : Type 0 where
  pub objects : Objects H ℕ
  pub wait : ℕ → H → H × ℕ
  pub post : ℕ → H → H × ℕ
  pub trywait : ℕ → H → H × ℕ
  pub getvalue : ℕ → H → ℕ × Option ℕ
  pub timedwait : Timespec → ℕ → H → H × ℕ

module _ {H : Type 0} (api : SemaphoreApi H) where
  unfoldable pub compat_sem_get :
      (create : Bool) → (value : ℕ) → (guest : ℕ) → Space H → Space H × ℕ
  compat_sem_get create value guest s = slot_get api.objects value create guest s

  unfoldable pub compat_sem_init : (shared value guest : ℕ) → Space H → Space H × ℕ
  compat_sem_init shared value guest s =
      let (s', host) = compat_sem_get true value guest (set_guest_slot guest 0 s) in
      if not (shared == 0) then (s, failed) else (s', if not (host == 0) then 0 else failed)

  unfoldable pub compat_sem_destroy : (guest : ℕ) → Space H → Space H × ℕ
  compat_sem_destroy guest s =
      destroy_host api.objects (set_guest_slot guest 0) (compat_sem_get false 0 guest s)

  unfoldable pub compat_sem_wait : (guest : ℕ) → Space H → Space H × ℕ
  compat_sem_wait guest s = apply_host failed api.wait (compat_sem_get true 0 guest s)

  unfoldable pub compat_sem_post : (guest : ℕ) → Space H → Space H × ℕ
  compat_sem_post guest s = apply_host failed api.post (compat_sem_get true 0 guest s)

  unfoldable pub compat_sem_trywait : (guest : ℕ) → Space H → Space H × ℕ
  compat_sem_trywait guest s = apply_host failed api.trywait (compat_sem_get true 0 guest s)

  -- The result, and what is stored in `*value`, if anything.
  unfoldable pub compat_sem_getvalue : (guest : ℕ) → Space H → Space H × (ℕ × Option ℕ)
  compat_sem_getvalue guest s =
      let (s', host) = compat_sem_get true 0 guest s in
      let (result, value) = api.getvalue host s'.host in
      (s', if host == 0 then (failed, none) else (result, value))

  -- The timeout is read from the guest; NULL is `none`.
  unfoldable pub compat_sem_timedwait :
      (guest : ℕ) → (timeout : Option Timespec) → Space H → Space H × ℕ
  compat_sem_timedwait guest none s = ((compat_sem_get true 0 guest s).0, failed)
  compat_sem_timedwait guest (some time) s =
      apply_host failed (api.timedwait time) (compat_sem_get true 0 guest s)
