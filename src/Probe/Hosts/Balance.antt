-- ===== src/Probe/Hosts/Balance.antt =====
-- The handles of relocation_probe.c: each that dlopen gives is closed once or held once.
use nfsmw_arm_linux.Prelude.{
  ℕ, ◌+◌, not, List, [], ◌∷◌, ◌++◌, if◌then◌else◌, ◌==◌, length, Bytes, arith, ◌≡◌, refl,
  Bool-cases, inl, inr,
}
use nfsmw_arm_linux.Probe.Hosts.{
  Linker, Event, opened, closed, Hosts, host_capacity, candidates, keep_handle, open_candidate,
  open_candidates, open_host_libraries, close_all, close_host_libraries,
  nfsmw_relocation_release_hosts, retain_host_libraries,
}

-- How often a handle stands in a list, and in the two kinds of events.
unfoldable pub occurrences : (handle : ℕ) → List ℕ → ℕ
occurrences handle [] = 0
occurrences handle (h ∷ hs) = (if h == handle then 1 else 0) + occurrences handle hs

unfoldable pub opens : (handle : ℕ) → List Event → ℕ
opens handle [] = 0
opens handle (opened h ∷ log) = (if h == handle then 1 else 0) + opens handle log
opens handle (closed h ∷ log) = opens handle log

unfoldable pub closes : (handle : ℕ) → List Event → ℕ
closes handle [] = 0
closes handle (opened h ∷ log) = closes handle log
closes handle (closed h ∷ log) = (if h == handle then 1 else 0) + closes handle log

-- Every handle was opened as often as it was closed and is held.
unfoldable pub IsBalanced : Hosts → Type 0
IsBalanced hosts =
    (handle : ℕ)
    → opens handle hosts.log
      ≡ closes handle hosts.log
        + occurrences handle hosts.host_handles
        + occurrences handle hosts.retained_host_handles

occurrences-append :
    (handle h : ℕ) (hs : List ℕ)
    → occurrences handle (hs ++ (h ∷ [])) ≡ occurrences handle hs + (if h == handle then 1 else 0)
unfolding occurrences
occurrences-append handle h [] = omega arith
occurrences-append handle h (x ∷ xs) = omega (arith, occurrences-append handle h xs)

close_all-counts :
    (handle : ℕ) (hs : List ℕ) (log : List Event)
    → (opens handle (close_all hs log) ≡ opens handle log)
      × (closes handle (close_all hs log) ≡ closes handle log + occurrences handle hs)
unfolding close_all opens closes occurrences
close_all-counts handle [] log = (refl, omega arith)
close_all-counts handle (h ∷ hs) log =
    ((close_all-counts handle hs log).0, omega (arith, (close_all-counts handle hs log).1))

module _ (linker : Linker) where
  open_candidate-IsBalanced :
      (candidate : Bytes) (hosts : Hosts)
      → IsBalanced hosts
      → IsBalanced (open_candidate linker candidate hosts)
  unfolding open_candidate keep_handle IsBalanced opens closes
  open_candidate-IsBalanced candidate hosts balanced handle =
      elim (Bool-cases (not (linker.dlopen candidate == 0))) [
        | inr e ↦ rw e (balanced handle)
        | inl e ↦ rw e (
            omega (
              arith,
              balanced handle,
              occurrences-append handle (linker.dlopen candidate) hosts.host_handles,
            ))
      ]

  open_candidates-IsBalanced :
      (names : List Bytes) (hosts : Hosts)
      → IsBalanced hosts
      → IsBalanced (open_candidates linker names hosts)
  unfolding open_candidates
  open_candidates-IsBalanced [] hosts balanced = balanced
  open_candidates-IsBalanced (name ∷ names) hosts balanced =
      elim (Bool-cases (length hosts.host_handles == host_capacity)) [
        | inl e ↦ rw e balanced
        | inr e ↦ rw e (
            open_candidates-IsBalanced names (open_candidate linker name hosts)
              (open_candidate-IsBalanced name hosts balanced))
      ]

  pub open_host_libraries-IsBalanced :
      (hosts : Hosts) → IsBalanced hosts → IsBalanced (open_host_libraries linker hosts)
  unfolding open_host_libraries
  open_host_libraries-IsBalanced = open_candidates-IsBalanced candidates

pub close_host_libraries-IsBalanced :
    (hosts : Hosts) → IsBalanced hosts → IsBalanced (close_host_libraries hosts)
unfolding close_host_libraries IsBalanced occurrences
close_host_libraries-IsBalanced hosts balanced handle =
    omega (arith, balanced handle, close_all-counts handle hosts.host_handles hosts.log)

pub release_hosts-IsBalanced :
    (hosts : Hosts) → IsBalanced hosts → IsBalanced (nfsmw_relocation_release_hosts hosts)
unfolding nfsmw_relocation_release_hosts IsBalanced occurrences
release_hosts-IsBalanced hosts balanced handle =
    omega (arith, balanced handle, close_all-counts handle hosts.retained_host_handles hosts.log)

pub retain_host_libraries-IsBalanced :
    (hosts : Hosts) → IsBalanced hosts → IsBalanced (retain_host_libraries hosts)
unfolding retain_host_libraries nfsmw_relocation_release_hosts IsBalanced occurrences
retain_host_libraries-IsBalanced hosts balanced handle =
    omega (arith, balanced handle, close_all-counts handle hosts.retained_host_handles hosts.log)
