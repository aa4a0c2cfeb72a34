-- ===== src/Compat/Exit.antt =====
-- compat_cxa_atexit, compat_cxa_thread_atexit and compat_cxa_finalize. One thread runs them, so that
-- the lock has no effect. Pointers are addresses, and NULL is 0.
pub mod Lifo
use nfsmw_arm_linux.Prelude.{
  ℕ, zero, suc, Bool, true, false, ◌||◌, ◌&&◌, not, Option, none, some, List, [], ◌∷◌, ◌++◌,
  if◌then◌else◌, ◌==◌, ltb, length, get_elem?, set,
}

pub record Entry : Type 0 where
  pub destructor : ℕ
  pub argument : ℕ
  pub dso : ℕ
  pub active : Bool

-- The slots in use, `atexit_entries[0 .. atexit_count - 1]`, and the entries whose destructors have
-- been called, oldest first.
pub record Registry : Type 0 where
  pub entries : List Entry
  pub calls : List Entry

abbrev pub atexit_capacity : ℕ
atexit_capacity = 512

-- The result tells whether 0 is returned.
unfoldable pub compat_cxa_atexit : (destructor argument dso : ℕ) → Registry → Registry × Bool
compat_cxa_atexit destructor argument dso r =
    if not (destructor == 0) && ltb (length r.entries) atexit_capacity
    then (
      record r {
        entries =
            r.entries
            ++ (record { destructor = destructor; argument = argument; dso = dso; active = true }
                ∷ []);
      },
      true,
    )
    else (r, false)

unfoldable pub compat_cxa_thread_atexit : (destructor argument dso : ℕ) → Registry → Registry × Bool
compat_cxa_thread_atexit destructor argument dso r = compat_cxa_atexit destructor argument dso r

-- The entries that the loop passes over.
unfoldable pub skipped : (dso : ℕ) → Entry → Bool
skipped dso entry = not entry.active || (not (dso == 0) && not (entry.dso == dso))

-- `invoke` is what a destructor, called with its argument, does to the registry.
module _ (invoke : Entry → Registry → Registry) where
  unfoldable pub call_entry : (index : ℕ) → Entry → Registry → Registry
  call_entry index entry r = invoke entry (record {
    entries = set r.entries index (record entry { active = false });
    calls = r.calls ++ (entry ∷ []);
  })

  unfoldable pub visit : (dso index : ℕ) → Registry → Registry
  visit dso index r = elim (get_elem? r.entries index) [
    | none ↦ r
    | some entry ↦ if skipped dso entry then r else call_entry index entry r
  ]

  -- The loop from an index down.
  unfoldable pub finalize_below : (dso index : ℕ) → Registry → Registry
  finalize_below dso zero r = r
  finalize_below dso (suc index) r = finalize_below dso index (visit dso index r)

  unfoldable pub compat_cxa_finalize : (dso : ℕ) → Registry → Registry
  compat_cxa_finalize dso r = finalize_below dso (length r.entries) r
