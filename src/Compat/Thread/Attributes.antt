-- ===== src/Compat/Thread/Attributes.antt =====
-- The stack that a new thread of the guest gets from host_attr of compat_bridge.c.
use nfsmw_arm_linux.Prelude.{ℕ, ◌*◌, ◌≤◌, some, arith, ◌≡◌, ◌≢◌, ◌⊎◌, ap}
use nfsmw_arm_linux.Compat.Thread.{
  Attribute, ThreadApi, enlarged, host_stack, host_detached, host_attr,
}

-- The size is the guest's, or one of the two minima, and none of the three is above it.
pub record Sized (stack_min asked given : ℕ) : Type 0 where
  pub least : 64 * 1024 ≤ given
  pub host_least : stack_min ≤ given
  pub enough : asked ≤ given
  pub exact : (given ≡ asked) ⊎ ((given ≡ 64 * 1024) ⊎ (given ≡ stack_min))

enlarged-Sized : (stack_min size : ℕ) → Sized stack_min size (enlarged stack_min size)
unfolding enlarged
enlarged-Sized stack_min size = record {
  least = ground arith;
  host_least = ground arith;
  enough = ground arith;
  exact = ground arith;
}

-- A guest's attribute that gives a stack size and no address, once pthread_attr_init succeeds, asks the
-- host for one stack size, which is the guest's or the larger minimum if that is less, and asks for
-- no stack address; detaching follows.
pub host_attr-Sized :
    {H : Type 0} (api : ThreadApi H) (guest : Attribute) (h : H)
    → guest.stack_base ≡ 0
    → guest.stack_size ≢ 0
    → (api.attr_init h).1 ≡ 0
    → (given : ℕ) × Sized api.stack_min guest.stack_size given
      × (host_attr api (some guest) h
          ≡ host_detached api guest (api.set_stack_size given (api.attr_init h).0))
unfolding host_attr host_stack
host_attr-Sized api guest h base size initialized =
    (enlarged api.stack_min guest.stack_size, enlarged-Sized api.stack_min guest.stack_size, asked)
  where
    asked :
        host_attr api (some guest) h
        ≡ host_detached api guest
            (api.set_stack_size (enlarged api.stack_min guest.stack_size) (api.attr_init h).0)
    asked = rw initialized (ap (host_detached api guest) (ground arith))
