-- ===== src/Compat/Mutex/Lifetime.antt =====
-- A mutex from its initialization to its destruction, and the types of mutexes.
use nfsmw_arm_linux.Prelude.{ℕ, true, ◌≡◌, refl, Option, none, List, arith}
use nfsmw_arm_linux.Memory.{Memory}
use nfsmw_arm_linux.Compat.Slots.{Space, set_guest_slot, guest_slot_value}
use nfsmw_arm_linux.Compat.Slots.Heap.{IsHeap}
use nfsmw_arm_linux.Compat.Slots.Lifetime.{Released, slot_lifetime}
use nfsmw_arm_linux.Compat.Mutex.{
  MutexApi, mutex_type, mutex_type_from_guest, mutex_recursive, mutex_errorcheck, compat_mutex_get,
  compat_pthread_mutex_init, compat_pthread_mutex_destroy,
}

-- If the C library's allocator behaves as documented, compat_pthread_mutex_init returns 0 and the C
-- library then destroys the host's mutex,
-- compat_pthread_mutex_destroy returns 0 and leaves no more blocks in use than before the
-- initialization, the guest's slot NULL and the rest of the memory as before.
pub compat_pthread_mutex-Released :
    {H : Type 0} (api : MutexApi H) (live : H → List ℕ) (attribute : Option ℕ) (guest : ℕ)
    (s : Space H)
    → IsHeap api.objects live
    → (compat_pthread_mutex_init api attribute guest s).1 ≡ 0
    → (api.objects.destroy
        (compat_mutex_get api true attribute guest (set_guest_slot guest 0 s)).1
        (compat_pthread_mutex_init api attribute guest s).0.host).1
      ≡ 0
    → ((compat_pthread_mutex_destroy api guest
          (compat_pthread_mutex_init api attribute guest s).0).1
        ≡ 0)
      × Released live guest s
          (compat_pthread_mutex_destroy api guest
            (compat_pthread_mutex_init api attribute guest s).0).0
unfolding compat_pthread_mutex_init compat_pthread_mutex_destroy compat_mutex_get
compat_pthread_mutex-Released api live attribute guest s heap done destroyed =
    let cleared = set_guest_slot guest 0 s in
    let config = mutex_type cleared.memory (guest_slot_value cleared.memory guest) attribute in
    let s' = (compat_pthread_mutex_init api attribute guest s).0 in
    slot_lifetime api.objects live heap config guest s
      (mutex_type s'.memory (guest_slot_value s'.memory guest) none) (ground arith) destroyed

-- A mutex that is created where its slot is NULL has the type of its attribute; one that is created
-- where Bionic's initializer for recursive or for error-checking mutexes stands has that type, whatever
-- the attribute.
pub mutex_type-initializers :
    (m : Memory) (attribute : Option ℕ)
    → (mutex_type m 0 attribute ≡ mutex_type_from_guest m attribute)
      × (mutex_type m 0x4000 attribute ≡ mutex_recursive)
      × (mutex_type m 0x8000 attribute ≡ mutex_errorcheck)
unfolding mutex_type
mutex_type-initializers m attribute = (refl, refl, refl)
