-- ===== src/Launch/Images.antt =====
-- The modules that main of runtime/src/main.c leaves mapped.
use nfsmw_arm_linux.Prelude.{
  ℕ, zero, suc, ◌+◌, ◌≡◌, ◌≢◌, refl, ◌∙◌, ◌⊎◌, inl, inr, Bool, true, false, Option, none, some,
  List, [], ◌∷◌, ◌==◌, if◌then◌else◌, arith, Bool-cases, Result-cases, ok, ◌>>=◌, Keeps,
}
use nfsmw_arm_linux.Launch.{
  Action, Launch, Settings, map, unmap, record_action, act, load_module, load_modules, describe,
}

-- The modules that are mapped, the newest first, after an action that succeeded or not; nothing once a
-- module is unmapped that is not the newest.
unfoldable pub images_after : Action → Bool → Option (List ℕ) → Option (List ℕ)
images_after (map index) true (some images) = some (index ∷ images)
images_after (unmap index) done (some []) = none
images_after (unmap index) done (some (newest ∷ images)) =
    if index == newest then some images else none
images_after action done images = images

unfoldable pub mapped_images : (List Action → Action → Bool) → List Action → Option (List ℕ)
mapped_images answer [] = some []
mapped_images answer (action ∷ before) =
    images_after action (answer before action) (mapped_images answer before)

unfoldable pub below : ℕ → List ℕ
below zero = []
below (suc n) = n ∷ below n

abbrev pub Neutral : Action → Type 0
Neutral action = (done : Bool) (images : Option (List ℕ)) → images_after action done images ≡ images

describe-Neutral : (index : ℕ) → Neutral (describe index)
unfolding images_after
describe-Neutral index done images = refl

module _ (answer : List Action → Action → Bool) where
  abbrev pub Holds : ℕ → Launch → Type 0
  Holds count s = (mapped_images answer s.history ≡ some (below count)) × (s.mapped ≡ count)

  pub record_action-Holds :
      (count : ℕ) (action : Action) (s : Launch)
      → Neutral action
      → Holds count s
      → Holds count (record_action action s)
  unfolding record_action mapped_images
  record_action-Holds count action s neutral (images, mapped) =
      (neutral (answer s.history action) (mapped_images answer s.history) ∙ images, mapped)

  pub act-Holds :
      (count : ℕ) (action : Action) → Neutral action → Keeps (Holds count) (act answer action)
  unfolding act
  act-Holds count action neutral s h = elim (Bool-cases (answer s.history action)) [
    | inl done ↦ rw done (record_action-Holds count action s neutral h)
    | inr missed ↦ rw missed (record_action-Holds count action s neutral h)
  ]

  load_module-Holds :
      (settings : Settings) (index : ℕ) (s : Launch)
      → Holds index s
      → s.constructors_started ≡ false
      → ((load_module answer settings index s).0.constructors_started ≡ false)
        × ((Holds (suc index) (load_module answer settings index s).0)
            ⊎ (((load_module answer settings index s).1 ≢ ok tt)
                × Holds index (load_module answer settings index s).0))
  unfolding load_module act record_action mapped_images images_after below
  load_module-Holds settings index s h fresh = ground (arith, h)

  -- A stage that maps and unmaps nothing.
  module _ (settings : Settings) where
    pub load_modules-Holds :
        (count index : ℕ) (s : Launch)
        → Holds index s
        → s.constructors_started ≡ false
        → ((load_modules answer settings count index s).0.constructors_started ≡ false)
          × ((loaded : ℕ) × (Holds loaded (load_modules answer settings count index s).0
                × ((load_modules answer settings count index s).1 ≡ ok tt
                    → loaded ≡ count + index)))
    unfolding load_modules
    load_modules-Holds zero index s h fresh = (fresh, (index, (h, (λ e. omega arith))))
    load_modules-Holds (suc count) index s h fresh =
        let first = load_module answer settings index s in
        let kept = load_module-Holds settings index s h fresh in
        elim (Result-cases first.1) [
          | inl (a, is) ↦ elim (kept.1) [
            | inl held ↦
                let (still, (loaded, (rest, all))) =
                  load_modules-Holds count (suc index) first.0 held kept.0 in
                rw (is, ◌>>=◌) (still, (loaded, (rest, λ e. omega (arith, all e))))
            | inr (other, held) ↦ absurd (other is)
          ]
          | inr (e, is) ↦ elim (kept.1) [
            | inl held ↦ rw (is, ◌>>=◌) (kept.0, (suc index, (held, λ e. absurd (cc e))))
            | inr (other, held) ↦ rw (is, ◌>>=◌) (kept.0, (index, (held, λ e. absurd (cc e))))
          ]
        ]
