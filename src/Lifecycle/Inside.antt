-- ===== src/Lifecycle/Inside.antt =====
-- No call leaves the image.
use nfsmw_arm_linux.Prelude.{
  ℕ, ◌+◌, ◌*◌, ◌/◌, ◌%◌, ◌-◌, ◌≡◌, inl, inr, Bool, true, ◌||◌, not, some, List, [], ◌∷◌, ◌==◌,
  word_max, bit_and, Keeps, for_each-Keeps, bind-Keeps, All, All-append, Bool-cases,
}
use nfsmw_arm_linux.Memory.{Memory, read32}
use nfsmw_arm_linux.Elf.Format.{indices}
use nfsmw_arm_linux.Elf.Types.{Image}
use nfsmw_arm_linux.Lifecycle.{
  Process, Scan, init_tags, fini_tags, scan_dynamic, in_image, runs, countdown,
  call_lifecycle_function, call_at, call_legacy, call_array, nfsmw_run_initializers,
  nfsmw_run_finalizers,
}

-- The address is a function of the image: neither 0 nor -1, and inside once its lowest bit is cleared.
pub record Callable (image : Image) (address : ℕ) : Type 0 where
  pub is_function : runs address ≡ true
  pub inside : in_image image (bit_and address (word_max - 1)) 1 ≡ true

abbrev pub AllCallable : Image → Process → Type 0
AllCallable image p = All (Callable image) p.calls

module _ (execute : ℕ → Memory → Memory) (image : Image) where
  call-AllCallable : (a : ℕ) → Keeps (AllCallable image) (call_lifecycle_function execute image a)
  unfolding call_lifecycle_function
  call-AllCallable a p h = elim (Bool-cases (runs a)) [
    | inr e ↦ rw e h
    | inl e ↦ elim (Bool-cases (in_image image (bit_and a (word_max - 1)) 1)) [
      | inr f ↦ rw (e, f) h
      | inl f ↦
          rw (e, f)
            (All-append (Callable image) p.calls (a ∷ []) h
              (record { is_function = e; inside = f }, tt))
    ]
  ]

  legacy-AllCallable : (scan : Scan) → Keeps (AllCallable image) (call_legacy execute image scan)
  unfolding call_legacy
  legacy-AllCallable scan p h = elim (Bool-cases (scan.legacy == 0)) [
    | inl e ↦ rw e h
    | inr e ↦ rw e (call-AllCallable scan.legacy p h)
  ]

  at-AllCallable : (array i : ℕ) → Keeps (AllCallable image) (call_at execute image array i)
  unfolding call_at
  at-AllCallable array i p h = call-AllCallable (read32 p.memory (array + i * 4)) p h

  array-AllCallable :
      (order : ℕ → List ℕ) (scan : Scan)
      → Keeps (AllCallable image) (call_array execute image order scan)
  unfolding call_array
  array-AllCallable order scan p h =
      let bad =
        scan.array_address == 0
        || (not (scan.array_size % 4 == 0)
            || not (in_image image scan.array_address scan.array_size)) in
      elim (Bool-cases (scan.array_size == 0)) [
        | inl e ↦ rw e h
        | inr e ↦ elim (Bool-cases bad) [
          | inl f ↦ rw (e, f) h
          | inr f ↦
              rw (e, f)
                (for_each-Keeps (AllCallable image) (order (scan.array_size / 4))
                  (call_at execute image scan.array_address) (at-AllCallable scan.array_address) p
                  h)
        ]
      ]

-- If every address called before is neither 0 nor -1 and lies in the image once its lowest bit is
-- cleared, then so is every address called after nfsmw_run_initializers and after
-- nfsmw_run_finalizers, whatever these return and whatever the called functions do to the memory.
pub lifecycle-AllCallable :
    (execute : ℕ → Memory → Memory) (image : Image) (counted : Bool) (p : Process)
    → AllCallable image p
    → AllCallable image (nfsmw_run_initializers execute (some image) counted p).0
      × AllCallable image (nfsmw_run_finalizers execute (some image) counted p).0
unfolding nfsmw_run_initializers nfsmw_run_finalizers
lifecycle-AllCallable execute image counted p h =
    elim (Bool-cases (image.mapping == 0 || not counted)) [
      | inl e ↦ rw e (h, h)
      | inr e ↦
          let init = scan_dynamic init_tags image p.memory in
          let fini = scan_dynamic fini_tags image p.memory in
          rw e (
            bind-Keeps (AllCallable image) (call_legacy execute image init)
                (λ _. call_array execute image (indices 0) init)
                (legacy-AllCallable execute image init)
                (λ _. array-AllCallable execute image (indices 0) init) p h,
            bind-Keeps (AllCallable image) (call_array execute image countdown fini)
                (λ _. call_legacy execute image fini)
                (array-AllCallable execute image countdown fini)
                (λ _. legacy-AllCallable execute image fini) p h,
          )
    ]
