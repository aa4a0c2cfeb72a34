-- ===== src/Compat/Thread.antt =====
-- Thread attributes and thread creation of compat_bridge.c.
pub mod Attributes
use nfsmw_arm_linux.Prelude.{
  ℕ, ◌+◌, ◌*◌, ◌/◌, ◌%◌, ◌-◌, Bool, true, false, not, ◌&&◌, Option, none, some, if◌then◌else◌, ◌==◌,
  ltb, bit_and, bit_or, word_max,
}
use nfsmw_arm_linux.Compat.Slots.{enomem}

-- `struct bionic_pthread_attr32`; the fields are 32-bit words.
pub record Attribute : Type 0 where
  pub flags : ℕ
  pub stack_base : ℕ
  pub stack_size : ℕ
  pub guard_size : ℕ
  pub scheduling_policy : ℕ
  pub scheduling_priority : ℕ

-- The functions that return 0 return the attribute alone.
unfoldable pub compat_pthread_attr_init : Attribute → Attribute
compat_pthread_attr_init attribute = record {
  flags = 0;
  stack_base = 0;
  stack_size = 1024 * 1024;
  guard_size = 0;
  scheduling_policy = 0;
  scheduling_priority = 0;
}

unfoldable pub compat_pthread_attr_destroy : Attribute → Attribute
compat_pthread_attr_destroy attribute = attribute

unfoldable pub compat_pthread_attr_setstacksize : (size : ℕ) → Attribute → Attribute
compat_pthread_attr_setstacksize size attribute = record attribute { stack_size = size }

unfoldable pub compat_pthread_attr_setstack : (base size : ℕ) → Attribute → Attribute
compat_pthread_attr_setstack base size attribute = record attribute {
  stack_base = base;
  stack_size = size;
}

-- What is stored in `*base` and `*size`, where these are not NULL.
unfoldable pub compat_pthread_attr_getstack :
    (base_given size_given : Bool) → Attribute → Option ℕ × Option ℕ
compat_pthread_attr_getstack base_given size_given attribute = (
  if base_given then some attribute.stack_base else none,
  if size_given then some attribute.stack_size else none,
)

unfoldable pub compat_pthread_attr_setschedparam : (priority : ℕ) → Attribute → Attribute
compat_pthread_attr_setschedparam priority attribute = record attribute {
  scheduling_priority = priority;
}

unfoldable pub compat_pthread_attr_setschedpolicy : (policy : ℕ) → Attribute → Attribute
compat_pthread_attr_setschedpolicy policy attribute = record attribute {
  scheduling_policy = policy;
}

unfoldable pub compat_pthread_attr_setdetachstate : (state : ℕ) → Attribute → Attribute
compat_pthread_attr_setdetachstate state attribute =
    if not (state == 0)
    then record attribute { flags = bit_or attribute.flags 1 }
    else record attribute { flags = bit_and attribute.flags (word_max - 1) }

-- `pthread_attr_init`, `_setstack`, `_setstacksize`, `_setdetachstate` (detached) and `_destroy` on the
-- C library's attribute, `pthread_create` with it, and `PTHREAD_STACK_MIN`. A result 0 is success.
pub record ThreadApi (H : Type 0) : Type 0 where
  pub attr_init : H → H × ℕ
  pub set_stack : (base size : ℕ) → H → H × ℕ
  pub set_stack_size : (size : ℕ) → H → H × ℕ
  pub set_detached : H → H × ℕ
  pub attr_destroy : H → H
  pub create : (routine argument : ℕ) → H → H × (ℕ × ℕ)
  pub stack_min : ℕ

-- The size of a stack that `pthread_create` allocates.
unfoldable pub enlarged : (stack_min size : ℕ) → ℕ
enlarged stack_min size =
    let least = 64 * 1024 in
    let minimum = if ltb least stack_min then stack_min else least in
    if ltb size minimum then minimum else size

module _ {H : Type 0} (api : ThreadApi H) where
  -- The stack of the host's attribute, once that is initialized.
  unfoldable pub host_stack : Attribute → H → H × ℕ
  host_stack guest h =
      if not (guest.stack_base == 0) && not (guest.stack_size == 0)
      then api.set_stack guest.stack_base guest.stack_size h
      else if not (guest.stack_size == 0)
      then api.set_stack_size (enlarged api.stack_min guest.stack_size) h
      else (h, 0)

  unfoldable pub host_detached : Attribute → H × ℕ → H × ℕ
  host_detached guest (h, result) =
      if result == 0 && not (bit_and guest.flags 1 == 0) then api.set_detached h else (h, result)

  -- NULL is `none`.
  unfoldable pub host_attr : Option Attribute → H → H × ℕ
  host_attr none h = api.attr_init h
  host_attr (some guest) h =
      let (h', result) = api.attr_init h in
      if not (result == 0) then (h', result) else host_detached guest (host_stack guest h')

  -- The result, and what is stored in `*thread`, if anything.
  unfoldable pub compat_pthread_create :
      Option Attribute → (routine argument : ℕ) → H → H × (ℕ × Option ℕ)
  compat_pthread_create attribute routine argument h =
      let (prepared, result) = host_attr attribute h in
      let (created, (result', thread)) = api.create routine argument prepared in
      if not (result == 0)
      then (api.attr_destroy prepared, (result, none))
      else (api.attr_destroy created, (result', if result' == 0 then some thread else none))
