-- ===== src/Compat/Slots/Race.antt =====
-- Two threads that first use one guest object at the same time. Each reads the slot, and then goes on
-- from what it has read: the order of these steps is that of the states below.
use nfsmw_arm_linux.Prelude.{
  ℕ, ◌≤◌, ◌≡◌, ◌≢◌, ap, ◌∙◌, inl, inr, true, false, List, ◌∷◌, arith, ltb,
}
use nfsmw_arm_linux.Memory.{read32, read32-write32}
use nfsmw_arm_linux.Compat.Slots.{Space, Objects, slot_limit, guest_slot_value, slot_resolve}
use nfsmw_arm_linux.Compat.Slots.Heap.{contains, IsHeap, Made, slot_create-Made}

module _ {H C : Type 0} (objects : Objects H C) (live : H → List ℕ) (config : C)
    (raw guest : ℕ) where
  -- A thread that has read `raw` goes on.
  abbrev pub goes_on : Space H → Space H × ℕ
  goes_on s = slot_resolve objects config raw true guest s

  goes_on-Made :
      (s : Space H)
      → IsHeap objects live
      → raw ≤ slot_limit
      → (goes_on s).1 ≢ 0
      → Made live guest s (goes_on s).0 (goes_on s).1
  unfolding slot_resolve
  goes_on-Made s heap low some_p =
      let low' : ltb slot_limit raw ≡ false = ground arith in
      rw low' (elim (slot_create-Made objects live heap config guest s) [
        | inl unmade ↦ absurd (ground (arith, unmade.null))
        | inr made ↦ made
      ])

module _ {H C : Type 0} (objects : Objects H C) (live : H → List ℕ) (config : C) (guest : ℕ)
    (s : Space H) where
  -- What the two threads read, and what each then gets.
  abbrev pub raw : ℕ
  raw = guest_slot_value s.memory guest

  abbrev pub first : Space H × ℕ
  first = goes_on objects live config raw guest s

  abbrev pub second : Space H × ℕ
  second = goes_on objects live config raw guest first.0

  -- If the C library's allocator behaves as documented, two threads both read a slot that holds no
  -- address before either has stored one, and both then get an object, the objects differ, though
  -- both stand for the one guest object; both are in use, and the slot holds the second thread's.
  pub slot_resolve_race :
      IsHeap objects live
      → raw ≤ slot_limit
      → first.1 ≢ 0
      → second.1 ≢ 0
      → (first.1 ≢ second.1)
        × (live second.0.host ≡ second.1 ∷ first.1 ∷ live s.host)
        × (guest_slot_value second.0.memory guest ≡ second.1)
  unfolding contains
  slot_resolve_race heap low some_first some_second =
      let a = goes_on-Made objects live config raw guest s heap low some_first in
      let b = goes_on-Made objects live config raw guest first.0 heap low some_second in
      (
        (λ same. ground (arith, ap (contains second.1) a.taken, b.fresh, same)),
        b.taken ∙ ap (λ l. second.1 ∷ l) a.taken,
        ap (λ m. read32 m guest) b.stored ∙ read32-write32 first.0.memory guest second.1 b.word,
      )
