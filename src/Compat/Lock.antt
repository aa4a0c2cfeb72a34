-- ===== src/Compat/Lock.antt =====
-- The read-write locks of compat_bridge.c.
use nfsmw_arm_linux.Prelude.{ℕ, Bool, true, false, not, Option, if◌then◌else◌, ◌==◌}
use nfsmw_arm_linux.Memory.{zero_fill}
use nfsmw_arm_linux.Compat.Slots.{
  Space, Objects, einval, enomem, slot_get, apply_host, destroy_host,
}

-- `pthread_rwlock_rdlock`, `_wrlock` and `_unlock` of the C library.
pub record LockApi (H : Type 0) : Type 0 where
  pub objects : Objects H (Unit {0})
  pub rdlock : ℕ → H → H × ℕ
  pub wrlock : ℕ → H → H × ℕ
  pub unlock : ℕ → H → H × ℕ

-- `memset(guest, 0, 40U)`.
unfoldable pub clear_lock : {H : Type 0} → (guest : ℕ) → Space H → Space H
clear_lock guest s = record s { memory = zero_fill s.memory guest 40 }

module _ {H : Type 0} (api : LockApi H) where
  unfoldable pub compat_rwlock_get : (create : Bool) → (guest : ℕ) → Space H → Space H × ℕ
  compat_rwlock_get create guest s = slot_get api.objects tt create guest s

  -- The attribute is not read.
  unfoldable pub compat_pthread_rwlock_init :
      (attribute : Option ℕ) → (guest : ℕ) → Space H → Space H × ℕ
  compat_pthread_rwlock_init attribute guest s =
      let (s', host) = compat_rwlock_get true guest (clear_lock guest s) in
      (s', if not (host == 0) then 0 else enomem)

  unfoldable pub compat_pthread_rwlock_destroy : (guest : ℕ) → Space H → Space H × ℕ
  compat_pthread_rwlock_destroy guest s =
      destroy_host api.objects (clear_lock guest) (compat_rwlock_get false guest s)

  unfoldable pub compat_pthread_rwlock_rdlock : (guest : ℕ) → Space H → Space H × ℕ
  compat_pthread_rwlock_rdlock guest s =
      apply_host enomem api.rdlock (compat_rwlock_get true guest s)

  unfoldable pub compat_pthread_rwlock_wrlock : (guest : ℕ) → Space H → Space H × ℕ
  compat_pthread_rwlock_wrlock guest s =
      apply_host enomem api.wrlock (compat_rwlock_get true guest s)

  unfoldable pub compat_pthread_rwlock_unlock : (guest : ℕ) → Space H → Space H × ℕ
  compat_pthread_rwlock_unlock guest s =
      apply_host einval api.unlock (compat_rwlock_get false guest s)
