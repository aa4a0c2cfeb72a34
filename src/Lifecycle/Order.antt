-- ===== src/Lifecycle/Order.antt =====
-- Which functions of a module run, and in which order.
use nfsmw_arm_linux.Prelude.{
  ℕ, zero, suc, ◌+◌, ◌*◌, ◌/◌, ◌%◌, ◌^◌, ◌≤◌, ◌<◌, ◌≡◌, refl, sym, ap, ap₂, ◌∙◌, subst, inl, inr,
  Bool, true, ◌||◌, not, some, List, [], ◌∷◌, ◌++◌, if◌then◌else◌, ◌==◌, map, ok, ◌>>◌, for_each,
  >>-ok, All, arith, length, length-append, Bool-cases,
}
use mathlib.Core.List.{append-nil, append_assoc}
use nfsmw_arm_linux.Memory.{Memory, read32}
use nfsmw_arm_linux.Elf.Format.{indices}
use nfsmw_arm_linux.Elf.Types.{Image}
use nfsmw_arm_linux.Lifecycle.{
  Process, Tags, init_tags, fini_tags, Scan, scan_dynamic, in_image, runs, countdown,
  call_lifecycle_function, call_at, call_legacy, call_array, nfsmw_run_initializers,
  nfsmw_run_finalizers,
}

-- The addresses that are functions.
unfoldable pub functions : List ℕ → List ℕ
functions [] = []
functions (a ∷ xs) = let rest = functions xs in if runs a then a ∷ rest else rest

-- The words of an array at some indices.
abbrev pub words : Memory → ℕ → List ℕ → List ℕ
words m array = map (λ i. read32 m (array + i * 4))

-- No call changes the array's words.
abbrev pub Steady : (ℕ → Memory → Memory) → (array count : ℕ) → Type 0
Steady execute array count =
    (a : ℕ) (m : Memory) (i : ℕ)
    → i < count
    → read32 (execute a m) (array + i * 4) ≡ read32 m (array + i * 4)

-- What a state has gained over an earlier one: these calls, each counted.
pub record Ran (p : Process) (xs : List ℕ) (q : Process) : Type 0 where
  pub in_order : q.calls ≡ p.calls ++ xs
  pub counted : q.called ≡ (p.called + length xs) % 2 ^ 32

functions-append : (xs ys : List ℕ) → functions (xs ++ ys) ≡ functions xs ++ functions ys
unfolding functions
functions-append [] ys = refl
functions-append (a ∷ xs) ys = elim (Bool-cases (runs a)) [
  | inl e ↦ ground (arith, e, functions-append xs ys)
  | inr e ↦ ground (arith, e, functions-append xs ys)
]

Ran-none : (p : Process) → p.called < 2 ^ 32 → Ran p [] p
Ran-none p small = record { in_order = sym (append-nil p.calls); counted = omega arith }

Ran-trans : {p q r : Process} {xs ys : List ℕ} → Ran p xs q → Ran q ys r → Ran p (xs ++ ys) r
Ran-trans {p} {q} {r} {xs} {ys} first second = record {
  in_order = second.in_order ∙ (ap (λ l. l ++ ys) first.in_order ∙ append_assoc p.calls xs ys);
  counted = omega (arith, first.counted, second.counted, length-append xs ys);
}

module _ (execute : ℕ → Memory → Memory) (image : Image) where
  call-order :
      (a : ℕ) (p : Process)
      → p.called < 2 ^ 32
      → (call_lifecycle_function execute image a p).1 ≡ ok tt
      → Ran p (functions (a ∷ [])) (call_lifecycle_function execute image a p).0
  unfolding call_lifecycle_function functions
  call-order a p small done = elim (Bool-cases (runs a)) [
    | inl e ↦ record { in_order = ground (arith, e); counted = ground (arith, e) }
    | inr e ↦ record {
      in_order = ground (arith, e, append-nil p.calls);
      counted = ground (arith, e);
    }
  ]

  -- A call leaves a steady array xs it was.
  call-words :
      (array : ℕ) {count : ℕ}
      → Steady execute array count
      → (a : ℕ) (p : Process) (i : ℕ) → i < count
      → read32 (call_lifecycle_function execute image a p).0.memory (array + i * 4)
        ≡ read32 p.memory (array + i * 4)
  unfolding call_lifecycle_function
  call-words array steady a p i below = ground (arith, steady a p.memory i below)

words-same :
    (m m' : Memory) (array count : ℕ) (is : List ℕ)
    → ((i : ℕ) → i < count → read32 m' (array + i * 4) ≡ read32 m (array + i * 4))
    → All (λ i. i < count) is
    → words m' array is ≡ words m array is
words-same m m' array count [] same all = refl
words-same m m' array count (i ∷ is) same all =
    ap₂ (λ w ws. w ∷ ws) (same i all.0) (words-same m m' array count is same all.1)

module _ (execute : ℕ → Memory → Memory) (image : Image) (array : ℕ) {count : ℕ}
    (steady : Steady execute array count) where
  loop-order :
      (is : List ℕ) (p : Process)
      → All (λ i. i < count) is
      → p.called < 2 ^ 32
      → (for_each is (call_at execute image array) p).1 ≡ ok tt
      → Ran p (functions (words p.memory array is)) (for_each is (call_at execute image array) p).0
  unfolding for_each functions call_at
  loop-order [] p all small done = Ran-none p small
  loop-order (i ∷ is) p all small done =
      let a = read32 p.memory (array + i * 4) in
      let q = (call_lifecycle_function execute image a p).0 in
      let (called, rest) =
        >>-ok (call_at execute image array i) (for_each is (call_at execute image array)) p done in
      let first = call-order execute image a p small called.1 in
      let later = loop-order is q all.1 (omega (arith, first.counted)) rest.0 in
      let same =
        words-same p.memory q.memory array count is
          (λ j below. call-words execute image array steady a p j below) all.1 in
      subst (Ran p (functions (words p.memory array (i ∷ is)))) rest.1 (
        subst (λ xs. Ran p xs (for_each is (call_at execute image array) q).0)
          (ap (λ ws. functions (a ∷ []) ++ functions ws) same
            ∙ sym (functions-append (a ∷ []) (words p.memory array is)))
          (Ran-trans first later))

indices-below :
    (first count limit : ℕ) → first + count ≤ limit → All (λ i. i < limit) (indices first count)
unfolding indices
indices-below first zero limit h = tt
indices-below first (suc count) limit h =
    (omega arith, indices-below (first + 1) count limit (omega arith))

countdown-below : (count limit : ℕ) → count ≤ limit → All (λ i. i < limit) (countdown count)
unfolding countdown
countdown-below zero limit h = tt
countdown-below (suc count) limit h = (omega arith, countdown-below count limit (omega arith))

module _ (execute : ℕ → Memory → Memory) (image : Image) (scan : Scan) where
  abbrev size : ℕ
  size = scan.array_size / 4

  nothing : (scan.legacy == 0) ≡ true → [] ≡ functions (scan.legacy ∷ [])
  unfolding functions runs
  nothing e = ground (arith, e)

  legacy-order :
      (p : Process)
      → p.called < 2 ^ 32
      → (call_legacy execute image scan p).1 ≡ ok tt
      → Ran p (functions (scan.legacy ∷ [])) (call_legacy execute image scan p).0
  unfolding call_legacy
  legacy-order p small done = elim (Bool-cases (scan.legacy == 0)) [
    | inl e ↦ rw e (subst (λ xs. Ran p xs p) (nothing e) (Ran-none p small))
    | inr e ↦ rw e (call-order execute image scan.legacy p small (ground (arith, e)))
  ]

  array-order :
      (order : ℕ → List ℕ) (p : Process)
      → Steady execute scan.array_address size
      → All (λ i. i < size) (order size)
      → order 0 ≡ []
      → p.called < 2 ^ 32
      → (call_array execute image order scan p).1 ≡ ok tt
      → Ran p
          (functions (words p.memory scan.array_address (order size)))
          (call_array execute image order scan p).0
  unfolding call_array functions
  array-order order p steady below empty small done =
      let bad =
        scan.array_address == 0
        || (not (scan.array_size % 4 == 0)
            || not (in_image image scan.array_address scan.array_size)) in
      elim (Bool-cases (scan.array_size == 0)) [
        | inl e ↦
            let no_size : size ≡ 0 = ground (arith, e) in
            rw e (
              subst (λ is. Ran p (functions (words p.memory scan.array_address is)) p)
                (sym (ap order no_size ∙ empty)) (Ran-none p small))
        | inr e ↦ elim (Bool-cases bad) [
          | inl f ↦ absurd (ground (arith, e, f))
          | inr f ↦
              rw (e, f)
                (loop-order execute image scan.array_address steady (order size) p below small
                  (ground (arith, e, f)))
        ]
      ]

module _ (execute : ℕ → Memory → Memory) (image : Image) (scan : Scan) where
  legacy-words :
      (array : ℕ) {count : ℕ}
      → Steady execute array count
      → (p : Process) (i : ℕ) → i < count
      → read32 (call_legacy execute image scan p).0.memory (array + i * 4)
        ≡ read32 p.memory (array + i * 4)
  unfolding call_legacy
  legacy-words array steady p i below =
      ground (arith, call-words execute image array steady scan.legacy p i below)

  module _ (p : Process) (small : p.called < 2 ^ 32)
      (steady : Steady execute scan.array_address (scan.array_size / 4)) where
    abbrev entries : (ℕ → List ℕ) → List ℕ
    entries order = words p.memory scan.array_address (order (scan.array_size / 4))

    legacy_first :
        ((call_legacy execute image scan >> call_array execute image (indices 0) scan) p).1 ≡ ok tt
        → Ran p
            (functions (scan.legacy ∷ entries (indices 0)))
            ((call_legacy execute image scan >> call_array execute image (indices 0) scan) p).0
    unfolding indices
    legacy_first done =
        let q = (call_legacy execute image scan p).0 in
        let count = scan.array_size / 4 in
        let below = indices-below 0 count count (omega arith) in
        let (called, rest) =
          >>-ok (call_legacy execute image scan) (call_array execute image (indices 0) scan) p
            done in
        let first = legacy-order execute image scan p small called.1 in
        let later =
          array-order execute image scan (indices 0) q steady below refl
            (omega (arith, first.counted)) rest.0 in
        let same =
          words-same p.memory q.memory scan.array_address count (indices 0 count)
            (λ j lt. legacy-words scan.array_address steady p j lt) below in
        subst (Ran p (functions (scan.legacy ∷ entries (indices 0)))) rest.1 (
          subst (λ xs. Ran p xs (call_array execute image (indices 0) scan q).0)
            (ap (λ ws. functions (scan.legacy ∷ []) ++ functions ws) same
              ∙ sym (functions-append (scan.legacy ∷ []) (entries (indices 0))))
            (Ran-trans first later))

    legacy_last :
        ((call_array execute image countdown scan >> call_legacy execute image scan) p).1 ≡ ok tt
        → Ran p
            (functions (entries countdown ++ (scan.legacy ∷ [])))
            ((call_array execute image countdown scan >> call_legacy execute image scan) p).0
    unfolding countdown
    legacy_last done =
        let q = (call_array execute image countdown scan p).0 in
        let count = scan.array_size / 4 in
        let (called, rest) =
          >>-ok (call_array execute image countdown scan) (call_legacy execute image scan) p done in
        let first =
          array-order execute image scan countdown p steady
            (countdown-below count count (omega arith)) refl small called.1 in
        let later = legacy-order execute image scan q (omega (arith, first.counted)) rest.0 in
        subst (Ran p (functions (entries countdown ++ (scan.legacy ∷ [])))) rest.1 (
          subst (λ xs. Ran p xs (call_legacy execute image scan q).0)
            (sym (functions-append (entries countdown) (scan.legacy ∷ []))) (Ran-trans first later))

module _ (execute : ℕ → Memory → Memory) (image : Image) (counted : Bool) (p : Process)
    (small : p.called < 2 ^ 32) where
  abbrev scanned : Tags → Scan
  scanned tags = scan_dynamic tags image p.memory

  -- If nfsmw_run_initializers succeeds on a module whose functions do not change its array of
  -- initializers, then it has called DT_INIT and then the array's entries from the first to the last,
  -- each once, those apart that are 0 or -1, and has added their number, modulo 2^32, to the counter.
  pub nfsmw_run_initializers-Ran :
      Steady execute (scanned init_tags).array_address ((scanned init_tags).array_size / 4)
      → (nfsmw_run_initializers execute (some image) counted p).1 ≡ ok tt
      → Ran p
          (functions (
            (scanned init_tags).legacy
            ∷ words p.memory
                (scanned init_tags).array_address
                (indices 0 ((scanned init_tags).array_size / 4))))
          (nfsmw_run_initializers execute (some image) counted p).0
  unfolding nfsmw_run_initializers
  nfsmw_run_initializers-Ran steady done = elim (Bool-cases (image.mapping == 0 || not counted)) [
    | inl e ↦ absurd (ground (arith, e))
    | inr e ↦
        rw e (legacy_first execute image (scanned init_tags) p small steady (ground (arith, e)))
  ]

  -- If nfsmw_run_finalizers succeeds on a module whose functions do not change its array of
  -- finalizers, then it has called the array's entries from the last to the first and then DT_FINI,
  -- each once, those apart that are 0 or -1, and has added their number, modulo 2^32, to the counter.
  pub nfsmw_run_finalizers-Ran :
      Steady execute (scanned fini_tags).array_address ((scanned fini_tags).array_size / 4)
      → (nfsmw_run_finalizers execute (some image) counted p).1 ≡ ok tt
      → Ran p
          (functions (
            words p.memory
              (scanned fini_tags).array_address
              (countdown ((scanned fini_tags).array_size / 4))
            ++ ((scanned fini_tags).legacy ∷ [])))
          (nfsmw_run_finalizers execute (some image) counted p).0
  unfolding nfsmw_run_finalizers
  nfsmw_run_finalizers-Ran steady done = elim (Bool-cases (image.mapping == 0 || not counted)) [
    | inl e ↦ absurd (ground (arith, e))
    | inr e ↦
        rw e (legacy_last execute image (scanned fini_tags) p small steady (ground (arith, e)))
  ]
