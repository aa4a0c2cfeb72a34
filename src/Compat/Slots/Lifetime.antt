-- ===== src/Compat/Slots/Lifetime.antt =====
-- Initializing an object and destroying it again.
use nfsmw_arm_linux.Prelude.{
  ℕ, ◌≡◌, ◌≢◌, refl, ap, ◌∙◌, inl, inr, true, false, List, arith, ◌==◌, ltb,
}
use nfsmw_arm_linux.Memory.{read32, write32, Outside, write32-Outside, read32-write32}
use nfsmw_arm_linux.Compat.Slots.{
  Space, Objects, slot_limit, guest_slot_value, set_guest_slot, slot_resolve, slot_get,
  destroy_host,
}
use nfsmw_arm_linux.Compat.Slots.Heap.{
  remove, remove-first, IsHeap, Made, slot_create-Made, slot_get-again,
}

-- A state in which a guest object holds nothing: no more blocks are in use than before, its slot is
-- NULL, and the rest of the memory is as before.
pub record Released {H : Type 0} (live : H → List ℕ) (guest : ℕ) (s s' : Space H) : Type 0 where
  pub live_kept : live s'.host ≡ live s.host
  pub slot_null : guest_slot_value s'.memory guest ≡ 0
  pub rest_kept : (x : ℕ) → Outside guest 4 x → s'.memory x ≡ s.memory x

module _ {H C : Type 0} (objects : Objects H C) (live : H → List ℕ) (heap : IsHeap objects live)
    (config : C) (guest : ℕ) (s : Space H) where
  abbrev pub got : Space H × ℕ
  got = slot_get objects config true guest (set_guest_slot guest 0 s)

  got-Made : got.1 ≢ 0 → Made live guest (set_guest_slot guest 0 s) got.0 got.1
  unfolding slot_get slot_resolve set_guest_slot
  got-Made some_p =
      let low : ltb slot_limit (read32 (write32 s.memory guest 0) guest) ≡ false =
        ground (arith, read32-write32 s.memory guest 0 (omega arith)) in
      rw low (elim (slot_create-Made objects live heap config guest (set_guest_slot guest 0 s)) [
        | inl unmade ↦ absurd (ground (arith, low, unmade.null))
        | inr made ↦ made
      ])

  -- The slot then gives the object to `_destroy`, and all is given back if the C library destroys it.
  pub slot_lifetime :
      (config' : C)
      → got.1 ≢ 0
      → (objects.destroy got.1 got.0.host).1 ≡ 0
      → ((destroy_host objects
            (set_guest_slot guest 0)
            (slot_get objects config' false guest got.0)).1
          ≡ 0)
        × Released live guest s
            (destroy_host objects
              (set_guest_slot guest 0)
              (slot_get objects config' false guest got.0)).0
  unfolding destroy_host set_guest_slot
  slot_lifetime config' some_p destroyed =
      let made = got-Made some_p in
      let given : (got.1 == 0) ≡ false = ground (arith, made.above) in
      let after = (objects.destroy got.1 got.0.host).0 in
      rw
        (slot_get-again objects live config config' true false guest (set_guest_slot guest 0 s) heap
          some_p)
        (rw (given, destroyed)
          (
            refl,
            record {
              live_kept =
                  heap.free_live got.1 after
                  ∙ (ap (remove got.1) (heap.destroy_live got.1 got.0.host ∙ made.taken)
                      ∙ remove-first got.1 (live s.host));
              slot_null = read32-write32 got.0.memory guest 0 (omega arith);
              rest_kept = λ x out.
                  write32-Outside got.0.memory guest 0 x out
                  ∙ (ap (λ m. m x) made.stored
                      ∙ (write32-Outside (write32 s.memory guest 0) guest got.1 x out
                          ∙ write32-Outside s.memory guest 0 x out));
            },
          ))
