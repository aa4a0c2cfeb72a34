-- ===== src/Compat/Tests.antt =====
-- Three entries of two libraries; the newest one's destructor registers another.
use nfsmw_arm_linux.Prelude.{
  ℕ, ◌+◌, ◌≡◌, refl, true, false, not, ◌&&◌, ◌||◌, some, none, List, [], ◌∷◌, ◌++◌, map,
  if◌then◌else◌, ◌==◌, arith,
}
use nfsmw_arm_linux.Elf.Format.{indices}
use nfsmw_arm_linux.Compat.Signals.{
  SignalSet, SignalApi, add_signals, host_mask_from_bionic, nfsmw_bionic_signal_mask_capture,
  nfsmw_bionic_signal_mask_restore,
}
use nfsmw_arm_linux.Compat.Signals.Masks.{capture-restore}
use nfsmw_arm_linux.Compat.Thread.{Attribute, ThreadApi}
use nfsmw_arm_linux.Compat.Exit.{
  Entry, Registry, compat_cxa_atexit, skipped, call_entry, visit, finalize_below,
  compat_cxa_finalize,
}
use nfsmw_arm_linux.Compat.Exit.Lifo.{
  due, pending, settled, slots, newest_first, meanwhile, OnlyRegister,
  compat_cxa_finalize-Finalized, compat_cxa_finalize-again,
}

abbrev entry : (destructor dso : ℕ) → Entry
entry destructor dso = record { destructor = destructor; argument = 1; dso = dso; active = true }

registered : Registry
unfolding compat_cxa_atexit
registered =
    (compat_cxa_atexit 300 1 7
      (compat_cxa_atexit 200 1 8
        (compat_cxa_atexit 100 1 7 (record { entries = []; calls = [] })).0).0).0

abbrev three : List Entry
three = entry 300 7 ∷ entry 200 8 ∷ entry 100 7 ∷ []

abbrev registers : Entry → List Entry
registers e = if e.destructor == 300 then entry 400 7 ∷ [] else []

abbrev invoke : Entry → Registry → Registry
invoke e r = record r { entries = r.entries ++ registers e }

abbrev only_registers : OnlyRegister invoke
only_registers e r = (registers e, (refl, refl))

finalized : (compat_cxa_finalize invoke 7 registered).calls ≡ entry 300 7 ∷ entry 100 7 ∷ []
unfolding registered compat_cxa_finalize finalize_below visit call_entry skipped
finalized = refl

compat_cxa_finalize-Finalized_example :
    ((compat_cxa_finalize invoke 7 registered).entries
      ≡ slots (map (settled 7) three) ++ (entry 400 7 ∷ []))
    × ((compat_cxa_finalize invoke 7 registered).calls ≡ registered.calls ++ pending 7 three)
unfolding registered slots meanwhile due settled
compat_cxa_finalize-Finalized_example =
    compat_cxa_finalize-Finalized invoke 7 three registered only_registers refl

compat_cxa_finalize-again_example :
    (compat_cxa_finalize invoke 7 (compat_cxa_finalize invoke 7 registered)).calls
    ≡ (registered.calls ++ pending 7 three) ++ (entry 400 7 ∷ [])
unfolding registered slots meanwhile newest_first pending due settled
compat_cxa_finalize-again_example =
    compat_cxa_finalize-again invoke 7 three registered only_registers refl

-- SIGKILL and SIGSTOP cannot be blocked. The state is the thread's mask.
abbrev unblockable : SignalSet
unblockable n = n == 9 || n == 19

abbrev signals_api : SignalApi SignalSet
signals_api = record {
  sigaction =
      λ signal action mask. (mask, (0, record { handler = 0; mask = λ _. false; flags = 0 }));
  sigprocmask = λ how set mask.
      (elim set [ some s ↦ (λ n. s n && not (unblockable n)) | none ↦ mask ], (0, mask));
}

-- Signals 1 and 3.
capture-restore_example :
    (nfsmw_bionic_signal_mask_capture signals_api
      (nfsmw_bionic_signal_mask_restore signals_api 5 (λ _. false))).1
    ≡ 5
unfolding host_mask_from_bionic add_signals indices
capture-restore_example =
    capture-restore signals_api unblockable 5 (λ _. false) (λ set mask. refl) (omega arith)
      (λ n blocked. ground arith)

-- The host's state counts the calls that set a stack size; the guest asks for a page.
abbrev threads : ThreadApi ℕ
threads = record {
  attr_init = λ h. (h, 0);
  set_stack = λ base size h. (h, 0);
  set_stack_size = λ size h. (h + 1, 0);
  set_detached = λ h. (h, 0);
  attr_destroy = λ h. h;
  create = λ routine argument h. (h, (0, 7));
  stack_min = 16384;
}

abbrev one_page : Attribute
one_page = record {
  flags = 0;
  stack_base = 0;
  stack_size = 4096;
  guard_size = 0;
  scheduling_policy = 0;
  scheduling_priority = 0;
}
