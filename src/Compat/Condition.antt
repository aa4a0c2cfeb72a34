-- ===== src/Compat/Condition.antt =====
-- The condition variables of compat_bridge.c.
use nfsmw_arm_linux.Prelude.{
  ℕ, Bool, true, false, not, ◌||◌, Option, none, some, if◌then◌else◌, ◌==◌,
}
use nfsmw_arm_linux.Compat.Slots.{
  Space, Objects, einval, enomem, set_guest_slot, slot_get, apply_host, destroy_host,
}
use nfsmw_arm_linux.Compat.Mutex.{MutexApi, compat_mutex_get}

-- `struct bionic_timespec32` and `struct timespec`: the words of the two signed fields.
pub record Timespec : Type 0 where
  pub seconds : ℕ
  pub nanoseconds : ℕ

-- `pthread_cond_signal`, `_broadcast`, `_wait` and `_timedwait` of the C library; the last two take a
-- mutex.
pub record ConditionApi (H : Type 0) : Type 0 where
  pub objects : Objects H (Unit {0})
  pub signal : ℕ → H → H × ℕ
  pub broadcast : ℕ → H → H × ℕ
  pub wait : ℕ → ℕ → H → H × ℕ
  pub timedwait : Timespec → ℕ → ℕ → H → H × ℕ

module _ {H : Type 0} (api : ConditionApi H) where
  unfoldable pub compat_cond_get : (create : Bool) → (guest : ℕ) → Space H → Space H × ℕ
  compat_cond_get create guest s = slot_get api.objects tt create guest s

  -- The attribute is not read.
  unfoldable pub compat_pthread_cond_init :
      (attribute : Option ℕ) → (guest : ℕ) → Space H → Space H × ℕ
  compat_pthread_cond_init attribute guest s =
      let (s', host) = compat_cond_get true guest (set_guest_slot guest 0 s) in
      (s', if not (host == 0) then 0 else enomem)

  unfoldable pub compat_pthread_cond_destroy : (guest : ℕ) → Space H → Space H × ℕ
  compat_pthread_cond_destroy guest s =
      destroy_host api.objects (set_guest_slot guest 0) (compat_cond_get false guest s)

  unfoldable pub compat_pthread_cond_signal : (guest : ℕ) → Space H → Space H × ℕ
  compat_pthread_cond_signal guest s = apply_host enomem api.signal (compat_cond_get true guest s)

  unfoldable pub compat_pthread_cond_broadcast : (guest : ℕ) → Space H → Space H × ℕ
  compat_pthread_cond_broadcast guest s =
      apply_host enomem api.broadcast (compat_cond_get true guest s)

  -- Both objects are created before either is tested.
  unfoldable pub compat_pthread_cond_wait :
      MutexApi H → (condition mutex : ℕ) → Space H → Space H × ℕ
  compat_pthread_cond_wait mutexes condition mutex s =
      let (s', host_condition) = compat_cond_get true condition s in
      let (s'', host_mutex) = compat_mutex_get mutexes true none mutex s' in
      let (after, result) = api.wait host_condition host_mutex s''.host in
      if host_condition == 0 || host_mutex == 0
      then (s'', enomem)
      else (record s'' { host = after }, result)

  -- The timeout is read from the guest; NULL is `none`.
  unfoldable pub compat_pthread_cond_timedwait :
      MutexApi H → (condition mutex : ℕ) → (timeout : Option Timespec) → Space H → Space H × ℕ
  compat_pthread_cond_timedwait mutexes condition mutex timeout s =
      let (s', host_condition) = compat_cond_get true condition s in
      let (s'', host_mutex) = compat_mutex_get mutexes true none mutex s' in
      elim timeout [
        | none ↦ (s'', einval)
        | some time ↦
            let (after, result) = api.timedwait time host_condition host_mutex s''.host in
            if host_condition == 0 || host_mutex == 0
            then (s'', einval)
            else (record s'' { host = after }, result)
      ]
