-- ===== src/Compat/Mutex.antt =====
-- The mutexes of compat_bridge.c.
pub mod Lifetime
use nfsmw_arm_linux.Prelude.{
  ℕ, ◌+◌, ◌/◌, ◌%◌, Bool, true, false, not, Option, none, some, if◌then◌else◌, ◌==◌,
}
use nfsmw_arm_linux.Memory.{Memory, read32}
use nfsmw_arm_linux.Compat.Slots.{
  Space, Objects, einval, enomem, guest_slot_value, set_guest_slot, slot_get, apply_host,
  destroy_host,
}

pub data MutexType : Type 0 where
  mutex_normal mutex_recursive mutex_errorcheck : MutexType

-- The attribute is an address; NULL is `none`.
unfoldable pub mutex_type_from_guest : Memory → Option ℕ → MutexType
mutex_type_from_guest m none = mutex_normal
mutex_type_from_guest m (some attribute) =
    if read32 m attribute == 1
    then mutex_recursive
    else if read32 m attribute == 2
    then mutex_errorcheck
    else mutex_normal

-- The type of a mutex that is created where the slot holds `raw`: a static initializer has it in the
-- bits 14 and 15.
unfoldable pub mutex_type : Memory → (raw : ℕ) → Option ℕ → MutexType
mutex_type m raw attribute =
    let type = mutex_type_from_guest m attribute in
    let encoded = raw / 16384 % 4 in
    if raw == 0
    then type
    else if encoded == 1
    then mutex_recursive
    else if encoded == 2
    then mutex_errorcheck
    else type

-- `pthread_mutex_lock`, `_unlock` and `_trylock` of the C library.
pub record MutexApi (H : Type 0) : Type 0 where
  pub objects : Objects H MutexType
  pub lock : ℕ → H → H × ℕ
  pub unlock : ℕ → H → H × ℕ
  pub trylock : ℕ → H → H × ℕ

module _ {H : Type 0} (api : MutexApi H) where
  unfoldable pub compat_mutex_get :
      (create : Bool) → (attribute : Option ℕ) → (guest : ℕ) → Space H → Space H × ℕ
  compat_mutex_get create attribute guest s =
      slot_get api.objects (mutex_type s.memory (guest_slot_value s.memory guest) attribute) create
        guest s

  unfoldable pub compat_pthread_mutex_init :
      (attribute : Option ℕ) → (guest : ℕ) → Space H → Space H × ℕ
  compat_pthread_mutex_init attribute guest s =
      let (s', host) = compat_mutex_get true attribute guest (set_guest_slot guest 0 s) in
      (s', if not (host == 0) then 0 else enomem)

  unfoldable pub compat_pthread_mutex_destroy : (guest : ℕ) → Space H → Space H × ℕ
  compat_pthread_mutex_destroy guest s =
      destroy_host api.objects (set_guest_slot guest 0) (compat_mutex_get false none guest s)

  unfoldable pub compat_pthread_mutex_lock : (guest : ℕ) → Space H → Space H × ℕ
  compat_pthread_mutex_lock guest s =
      apply_host enomem api.lock (compat_mutex_get true none guest s)

  unfoldable pub compat_pthread_mutex_unlock : (guest : ℕ) → Space H → Space H × ℕ
  compat_pthread_mutex_unlock guest s =
      apply_host einval api.unlock (compat_mutex_get false none guest s)

  unfoldable pub compat_pthread_mutex_trylock : (guest : ℕ) → Space H → Space H × ℕ
  compat_pthread_mutex_trylock guest s =
      apply_host enomem api.trylock (compat_mutex_get true none guest s)
