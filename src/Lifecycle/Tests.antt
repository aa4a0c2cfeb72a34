-- ===== src/Lifecycle/Tests.antt =====
-- A module with DT_INIT, two initializers of which one is a -1 mark, and two finalizers.
use nfsmw_arm_linux.Prelude.{
  ℕ, ◌-◌, ◌/◌, ◌≡◌, refl, true, some, List, [], ◌∷◌, ◌++◌, arith, Result, for_each,
}
use nfsmw_arm_linux.Memory.{Memory, byte_at}
use nfsmw_arm_linux.Elf.Format.{indices, table, read_entry}
use nfsmw_arm_linux.Elf.Types.{Image, null_image}
use nfsmw_arm_linux.Elf.Dynamic.{dynamic_entries}
use nfsmw_arm_linux.Lifecycle.{
  Process, init_tags, fini_tags, scan_dynamic, scan_entries, scan_entry, in_image, runs, countdown,
  call_lifecycle_function, call_at, call_legacy, call_array, nfsmw_run_initializers,
  nfsmw_run_finalizers, Error,
}
use nfsmw_arm_linux.Lifecycle.Order.{
  functions, words, Ran, nfsmw_run_initializers-Ran, nfsmw_run_finalizers-Ran,
}
use nfsmw_arm_linux.Lifecycle.Inside.{AllCallable, lifecycle-AllCallable}

abbrev module_words : List ℕ
module_words =
    12 ∷ 100 ∷ 25 ∷ 56 ∷ 27 ∷ 8 ∷ 26 ∷ 64 ∷ 28 ∷ 8 ∷ 13 ∷ 104 ∷ 0 ∷ 0 ∷ 0xffff_ffff ∷ 4197 ∷ 4205
    ∷ 4200 ∷ []

abbrev image : Image
image = record null_image {
  mapping = 4096;
  mapping_size = 4096;
  load_bias = 4096;
  dynamic = 4096;
  dynamic_count = 7;
}

-- The functions leave the memory alone.
abbrev execute : ℕ → Memory → Memory
execute a m = m

start : Process
unfolding byte_at
start = record { memory = λ a. byte_at module_words (a - 4096); calls = []; called = 0 }

initialized : Process × Result Error (Unit {0})
unfolding start nfsmw_run_initializers scan_dynamic scan_entries scan_entry dynamic_entries table
    indices read_entry call_legacy call_array call_at call_lifecycle_function runs in_image for_each
initialized = nfsmw_run_initializers execute (some image) true start

initialized-calls : initialized.0.calls ≡ 4196 ∷ 4197 ∷ []
unfolding initialized
initialized-calls = refl

finalized-calls :
    (nfsmw_run_finalizers execute (some image) true start).0.calls ≡ 4200 ∷ 4205 ∷ 4200 ∷ []
unfolding initialized nfsmw_run_finalizers countdown
finalized-calls = refl

nfsmw_run_initializers-Ran_example :
    Ran start
      (functions (
        (scan_dynamic init_tags image start.memory).legacy
        ∷ words start.memory
            (scan_dynamic init_tags image start.memory).array_address
            (indices 0 ((scan_dynamic init_tags image start.memory).array_size / 4))))
      (nfsmw_run_initializers execute (some image) true start).0
unfolding initialized
nfsmw_run_initializers-Ran_example =
    nfsmw_run_initializers-Ran execute image true start (omega arith) (λ a m i h. refl) refl

nfsmw_run_finalizers-Ran_example :
    Ran start
      (functions (
        words start.memory
          (scan_dynamic fini_tags image start.memory).array_address
          (countdown ((scan_dynamic fini_tags image start.memory).array_size / 4))
        ++ ((scan_dynamic fini_tags image start.memory).legacy ∷ [])))
      (nfsmw_run_finalizers execute (some image) true start).0
unfolding initialized nfsmw_run_finalizers countdown
nfsmw_run_finalizers-Ran_example =
    nfsmw_run_finalizers-Ran execute image true start (omega arith) (λ a m i h. refl) refl

lifecycle-AllCallable_example :
    AllCallable image (nfsmw_run_initializers execute (some image) true start).0
    × AllCallable image (nfsmw_run_finalizers execute (some image) true start).0
unfolding start
lifecycle-AllCallable_example = lifecycle-AllCallable execute image true start tt
