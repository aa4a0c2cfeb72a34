-- ===== src/Compat/Slots/Tests.antt =====
-- A C library whose allocator has two blocks, and its mutexes.
use nfsmw_arm_linux.Prelude.{
  ℕ, ◌<◌, ◌≡◌, ◌≢◌, ◌⊎◌, refl, inl, inr, true, false, none, List, [], ◌∷◌, arith, if◌then◌else◌,
  not, Bool-cases,
}
use nfsmw_arm_linux.Memory.{write32}
use nfsmw_arm_linux.Compat.Slots.{
  Space, Objects, slot_limit, guest_slot_value, set_guest_slot, slot_create, slot_resolve, slot_get,
  apply_host,
}
use nfsmw_arm_linux.Compat.Slots.Heap.{contains, remove, IsHeap, Got, slot_get-Got}
use nfsmw_arm_linux.Compat.Slots.Race.{first, second, slot_resolve_race}
use nfsmw_arm_linux.Compat.Slots.Lifetime.{Released}
use nfsmw_arm_linux.Compat.Mutex.{
  MutexType, mutex_normal, MutexApi, compat_mutex_get, compat_pthread_mutex_init,
  compat_pthread_mutex_destroy, compat_pthread_mutex_lock,
}
use nfsmw_arm_linux.Compat.Mutex.Lifetime.{compat_pthread_mutex-Released}

abbrev two_blocks : List ℕ → List ℕ × ℕ
two_blocks h =
    if not (contains 70000 h)
    then (70000 ∷ h, 70000)
    else if not (contains 70008 h)
    then (70008 ∷ h, 70008)
    else (h, 0)

abbrev objects : Objects (List ℕ) MutexType
objects = record {
  calloc = two_blocks;
  free = remove;
  init = λ p c h. (h, true);
  destroy = λ p h. (h, 0);
}

two_blocks-fresh :
    (h : List ℕ)
    → (((two_blocks h).1 ≡ 0) × ((two_blocks h).0 ≡ h))
      ⊎ ((slot_limit < (two_blocks h).1)
          × ((two_blocks h).1 < 4294967296)
          × (contains (two_blocks h).1 h ≡ false)
          × ((two_blocks h).0 ≡ (two_blocks h).1 ∷ h))
two_blocks-fresh h = elim (Bool-cases (contains 70000 h)) [
  | inr low ↦ rw low (inr (omega arith, omega arith, low, refl))
  | inl low ↦ elim (Bool-cases (contains 70008 h)) [
    | inr high ↦ rw (low, high) (inr (omega arith, omega arith, high, refl))
    | inl high ↦ rw (low, high) (inl (refl, refl))
  ]
]

objects-IsHeap : IsHeap objects (λ h. h)
objects-IsHeap = record {
  calloc_live = two_blocks-fresh;
  init_live = λ p c h. refl;
  destroy_live = λ p h. refl;
  free_live = λ p h. refl;
}

abbrev api : MutexApi (List ℕ)
api = record {
  objects = objects;
  lock = λ p h. (h, 0);
  unlock = λ p h. (h, 0);
  trylock = λ p h. (h, 0);
}

abbrev empty : Space (List ℕ)
empty = record { memory = λ _. 0; host = [] }

lock_creates : (compat_pthread_mutex_lock api 16 empty).0.host ≡ 70000 ∷ []
unfolding compat_pthread_mutex_lock compat_mutex_get slot_get slot_resolve slot_create apply_host
    set_guest_slot contains
lock_creates = refl

slot_get-Got_example :
    Got objects
      (λ h. h)
      true
      16
      empty
      (slot_get objects mutex_normal true 16 empty).0
      (slot_get objects mutex_normal true 16 empty).1
slot_get-Got_example = slot_get-Got objects (λ h. h) objects-IsHeap mutex_normal true 16 empty

second_given : (second objects (λ h. h) mutex_normal 16 empty).1 ≡ 70008
unfolding slot_resolve slot_create contains set_guest_slot
second_given = refl

slot_resolve_race_example :
    ((first objects (λ h. h) mutex_normal 16 empty).1
      ≢ (second objects (λ h. h) mutex_normal 16 empty).1)
    × ((second objects (λ h. h) mutex_normal 16 empty).0.host
        ≡ (second objects (λ h. h) mutex_normal 16 empty).1
          ∷ (first objects (λ h. h) mutex_normal 16 empty).1
          ∷ [])
    × (guest_slot_value (second objects (λ h. h) mutex_normal 16 empty).0.memory 16
        ≡ (second objects (λ h. h) mutex_normal 16 empty).1)
unfolding slot_resolve slot_create contains
slot_resolve_race_example =
    slot_resolve_race objects (λ h. h) mutex_normal 16 empty objects-IsHeap (omega arith)
      (λ e. cc e) (λ e. omega (arith, e, second_given))

compat_pthread_mutex-Released_example :
    ((compat_pthread_mutex_destroy api 16 (compat_pthread_mutex_init api none 16 empty).0).1 ≡ 0)
    × Released
        (λ h. h)
        16
        empty
        (compat_pthread_mutex_destroy api 16 (compat_pthread_mutex_init api none 16 empty).0).0
unfolding compat_pthread_mutex_init compat_mutex_get slot_get slot_resolve slot_create
    set_guest_slot contains write32
compat_pthread_mutex-Released_example =
    compat_pthread_mutex-Released api (λ h. h) none 16 empty objects-IsHeap refl refl
