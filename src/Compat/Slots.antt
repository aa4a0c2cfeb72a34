-- ===== src/Compat/Slots.antt =====
-- How compat_bridge.c keeps a host object behind a guest's: the guest's first word holds the host
-- object's address, and is set when the object is first needed. The `_get` functions for mutexes,
-- conditions, locks and semaphores are `slot_get` at their kind of object.
pub mod Heap
pub mod Race
pub mod Lifetime
mod Tests
use nfsmw_arm_linux.Prelude.{ℕ, ◌+◌, Bool, true, false, ◌&&◌, not, if◌then◌else◌, ◌==◌, ltb, leb}
use nfsmw_arm_linux.Memory.{Memory, read32, write32}

-- The guest's memory, and the state of the C library, which its functions change.
pub record Space (H : Type 0) : Type 0 where
  pub memory : Memory
  pub host : H

-- `calloc`, which gives 0 on failure, `free`, and the `_init` and `_destroy` functions of one kind of
-- host object. `_init` takes what it configures the object with, and tells whether it returns 0.
pub record Objects (H C : Type 0) : Type 0 where
  pub calloc : H → H × ℕ
  pub free : ℕ → H → H
  pub init : ℕ → C → H → H × Bool
  pub destroy : ℕ → H → H × ℕ

-- errno values.
abbrev pub einval : ℕ
einval = 22

abbrev pub enomem : ℕ
enomem = 12

-- Guest words up to this are no addresses: 0, and Bionic's static initializers.
abbrev pub slot_limit : ℕ
slot_limit = 0xffff

abbrev pub guest_slot_value : Memory → ℕ → ℕ
guest_slot_value m guest = read32 m guest

module _ {H : Type 0} where
  unfoldable pub set_guest_slot : (guest value : ℕ) → Space H → Space H
  set_guest_slot guest value s = record s { memory = write32 s.memory guest value }

  -- The host object, or 0 for NULL, and the state: a fresh object, configured and stored in the slot.
  unfoldable pub slot_create : {C : Type 0} → Objects H C → C → (guest : ℕ) → Space H → Space H × ℕ
  slot_create objects config guest s =
      let (allocated, host) = objects.calloc s.host in
      let (configured, done) = objects.init host config allocated in
      if host == 0
      then (record s { host = allocated }, 0)
      else if done
      then (set_guest_slot guest host (record s { host = configured }), host)
      else (record s { host = objects.free host configured }, 0)

  -- What follows the read of the slot.
  unfoldable pub slot_resolve :
      {C : Type 0}
      → Objects H C
      → C
      → (raw : ℕ) → (create : Bool) → (guest : ℕ) → Space H
      → Space H × ℕ
  slot_resolve objects config raw create guest s =
      if ltb slot_limit raw
      then (s, raw)
      else if not create
      then (s, 0)
      else slot_create objects config guest s

  unfoldable pub slot_get :
      {C : Type 0} → Objects H C → C → (create : Bool) → (guest : ℕ) → Space H → Space H × ℕ
  slot_get objects config create guest s =
      slot_resolve objects config (guest_slot_value s.memory guest) create guest s

  -- A function of the C library on an object, or an error where there is none.
  unfoldable pub apply_host : (failure : ℕ) → (ℕ → H → H × ℕ) → Space H × ℕ → Space H × ℕ
  apply_host failure function (s, host) =
      let (after, result) = function host s.host in
      if host == 0 then (s, failure) else (record s { host = after }, result)

  -- The `_destroy` functions; `clear` empties the slot.
  unfoldable pub destroy_host :
      {C : Type 0} → Objects H C → (clear : Space H → Space H) → Space H × ℕ → Space H × ℕ
  destroy_host objects clear (s, host) =
      let (after, result) = objects.destroy host s.host in
      if host == 0
      then (s, 0)
      else if result == 0
      then (clear (record s { host = objects.free host after }), 0)
      else (record s { host = after }, result)
