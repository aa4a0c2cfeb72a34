-- ===== src/Compat/Slots/Heap.antt =====
-- What slot_get and destroy_host allocate and give back, on a C library that keeps track of it.
use nfsmw_arm_linux.Prelude.{
  ℕ, ◌≤◌, ◌<◌, ◌≡◌, ◌≢◌, ◌⊎◌, refl, ap, ◌∙◌, inl, inr, Bool, true, false, ◌||◌, List, [], ◌∷◌,
  arith, if◌then◌else◌, ◌==◌, ltb, Bool-cases,
}
use nfsmw_arm_linux.Memory.{read32, write32, read32-write32}
use nfsmw_arm_linux.Compat.Slots.{
  Space, Objects, slot_limit, guest_slot_value, set_guest_slot, slot_create, slot_resolve, slot_get,
}

unfoldable pub contains : ℕ → List ℕ → Bool
contains p [] = false
contains p (x ∷ xs) = x == p || contains p xs

unfoldable pub remove : ℕ → List ℕ → List ℕ
remove p [] = []
remove p (x ∷ xs) = let rest = remove p xs in if x == p then xs else x ∷ rest

-- The documented behaviour of the allocator: `live` lists the blocks in use, `calloc` gives NULL or a
-- block that is not in use, above the lowest 64 KiB, which Linux does not map, and `free` gives one back.
pub record IsHeap {H C : Type 0} (objects : Objects H C) (live : H → List ℕ) : Type 0 where
  pub calloc_live :
      (h : H)
      → (((objects.calloc h).1 ≡ 0) × (live (objects.calloc h).0 ≡ live h))
        ⊎ ((slot_limit < (objects.calloc h).1)
            × ((objects.calloc h).1 < 4294967296)
            × (contains (objects.calloc h).1 (live h) ≡ false)
            × (live (objects.calloc h).0 ≡ (objects.calloc h).1 ∷ live h))
  pub init_live : (p : ℕ) (c : C) (h : H) → live (objects.init p c h).0 ≡ live h
  pub destroy_live : (p : ℕ) (h : H) → live (objects.destroy p h).0 ≡ live h
  pub free_live : (p : ℕ) (h : H) → live (objects.free p h) ≡ remove p (live h)

pub remove-first : (p : ℕ) (xs : List ℕ) → remove p (p ∷ xs) ≡ xs
unfolding remove
remove-first p xs = ground arith

-- A fresh block, stored in a guest's slot, the rest of the memory as it was.
pub record Made {H : Type 0} (live : H → List ℕ) (guest : ℕ) (s s' : Space H) (p : ℕ) : Type 0 where
  pub above : slot_limit < p
  pub word : p < 4294967296
  pub fresh : contains p (live s.host) ≡ false
  pub taken : live s'.host ≡ p ∷ live s.host
  pub stored : s'.memory ≡ write32 s.memory guest p

-- NULL, with no more blocks in use and the memory as it was.
pub record Unmade {H : Type 0} (live : H → List ℕ) (s s' : Space H) (p : ℕ) : Type 0 where
  pub null : p ≡ 0
  pub memory_kept : s'.memory ≡ s.memory
  pub live_kept : live s'.host ≡ live s.host

module _ {H C : Type 0} (objects : Objects H C) (live : H → List ℕ) where
  -- How slot_get ends: with the object of the slot and nothing changed; with NULL, nothing more in use
  -- and the memory as it was; or with a fresh object that is in the slot, the rest of the memory as it
  -- was.
  pub data Got (create : Bool) (guest : ℕ) (s s' : Space H) (p : ℕ) : Type 0 where
    present :
        slot_limit < p → guest_slot_value s.memory guest ≡ p → s' ≡ s → Got create guest s s' p
    absent : Unmade live s s' p → Got create guest s s' p
    created :
        create ≡ true
        → guest_slot_value s.memory guest ≤ slot_limit
        → Made live guest s s' p
        → Got create guest s s' p

  module _ (heap : IsHeap objects live) where
    pub slot_create-Made :
        (config : C) (guest : ℕ) (s : Space H)
        → Unmade live s
            (slot_create objects config guest s).0
            (slot_create objects config guest s).1
          ⊎ Made live guest s
              (slot_create objects config guest s).0
              (slot_create objects config guest s).1
    unfolding slot_create set_guest_slot
    slot_create-Made config guest s = elim (heap.calloc_live s.host) [
      | inl (none_left, same) ↦
          rw none_left (inl (record { null = refl; memory_kept = refl; live_kept = same }))
      | inr (above, word, fresh, taken) ↦
          let p = (objects.calloc s.host).1 in
          let given : (p == 0) ≡ false = ground (arith, above) in
          let configured = heap.init_live p config (objects.calloc s.host).0 ∙ taken in
          elim (Bool-cases (objects.init p config (objects.calloc s.host).0).1) [
            | inl done ↦
                rw (given, done)
                  (inr (record {
                    above = above;
                    word = word;
                    fresh = fresh;
                    taken = configured;
                    stored = refl;
                  }))
            | inr fails ↦
                rw (given, fails)
                  (inl (record {
                    null = refl;
                    memory_kept = refl;
                    live_kept =
                        heap.free_live p (objects.init p config (objects.calloc s.host).0).0
                        ∙ (ap (remove p) configured ∙ remove-first p (live s.host));
                  }))
          ]
    ]

    slot_resolve-Got :
        (config : C) (raw : ℕ) (create : Bool) (guest : ℕ) (s : Space H)
        → guest_slot_value s.memory guest ≡ raw
        → Got create guest s
            (slot_resolve objects config raw create guest s).0
            (slot_resolve objects config raw create guest s).1
    unfolding slot_resolve
    slot_resolve-Got config raw create guest s is = elim (Bool-cases (ltb slot_limit raw)) [
      | inl high ↦ rw high (present (ground (arith, high)) is refl)
      | inr low ↦ elim (Bool-cases create) [
        | inr only ↦
            rw (low, only) (absent (record { null = refl; memory_kept = refl; live_kept = refl }))
        | inl wanted ↦
            let below : guest_slot_value s.memory guest ≤ slot_limit = ground (arith, low, is) in
            rw (low, wanted)
              (elim (slot_create-Made config guest s) [
                | inl unmade ↦ absent unmade
                | inr made ↦ created refl below made
              ])
      ]
    ]

    -- If the C library's allocator behaves as documented, slot_get leaves everything as it was and
    -- gives the object of the slot, or gives NULL with no more blocks in use and the memory as it was,
    -- or, where it may create and the slot held no address, gives one fresh block that it stores in
    -- the slot.
    pub slot_get-Got :
        (config : C) (create : Bool) (guest : ℕ) (s : Space H)
        → Got create guest s
            (slot_get objects config create guest s).0
            (slot_get objects config create guest s).1
    unfolding slot_get
    slot_get-Got config create guest s =
        slot_resolve-Got config (guest_slot_value s.memory guest) create guest s refl

  -- The object stays the guest's.
  pub Got-slot :
      (create : Bool) (guest : ℕ) (s s' : Space H) (p : ℕ)
      → Got create guest s s' p
      → p ≢ 0
      → (guest_slot_value s'.memory guest ≡ p) × (slot_limit < p)
  Got-slot create guest s s' p (present high is same) some_p =
      (ap (λ t. guest_slot_value t.memory guest) same ∙ is, high)
  Got-slot create guest s s' p (absent unmade) some_p = absurd (some_p unmade.null)
  Got-slot create guest s s' p (created may low made) some_p =
      (ap (λ m. read32 m guest) made.stored ∙ read32-write32 s.memory guest p made.word, made.above)

-- If the C library's allocator behaves as documented, then once slot_get has given an object, it
-- gives the same one again for the slot, and changes nothing, whatever it is told to create.
pub slot_get-again :
    {H C : Type 0} (objects : Objects H C) (live : H → List ℕ) (config config' : C)
    (create create' : Bool) (guest : ℕ) (s : Space H)
    → IsHeap objects live
    → (slot_get objects config create guest s).1 ≢ 0
    → slot_get objects config' create' guest (slot_get objects config create guest s).0
      ≡ ((slot_get objects config create guest s).0, (slot_get objects config create guest s).1)
unfolding slot_resolve
slot_get-again objects live config config' create create' guest s heap some_p =
    let (is, high) =
      Got-slot objects live create guest s (slot_get objects config create guest s).0
        (slot_get objects config create guest s).1
        (slot_get-Got objects live heap config create guest s) some_p in
    let high' : ltb slot_limit (slot_get objects config create guest s).1 ≡ true =
      ground (arith, high) in
    unfold slot_get in rw is (rw high' refl)
