-- ===== src/Prelude/Runs.antt =====
-- Results, and code that changes a state and may fail: the state is kept on failure too.
use mathlib.Core.Path.{◌≡◌, refl}
use mathlib.Core.Logic.{◌⊎◌, inl, inr}
use native.Mathlib.Omega.{arith}
use mathlib.Core.Bool.{Bool, true, false}
use mathlib.Core.List.{List, [], ◌∷◌}
use nfsmw_arm_linux.Prelude.Lists.{All}

pub data Result (E A : Type 0) : Type 0 where
  ok : A → Result E A
  err : E → Result E A

abbrev pub Run : Type 0 → Type 0 → Type 0 → Type 0
Run E S A = S → S × Result E A

infixl 5 ◌>>=◌ ◌>>◌
abbrev pub ◌>>=◌ : {E S A B : Type 0} → Run E S A → (A → Run E S B) → Run E S B
◌>>=◌ m f s = elim ((m s).1) [ ok a ↦ f a (m s).0 | err e ↦ ((m s).0, err e) ]

abbrev pub ◌>>◌ : {E S A B : Type 0} → Run E S A → Run E S B → Run E S B
m >> k = m >>= λ _. k

abbrev pub pure : {E S A : Type 0} → A → Run E S A
pure a s = (s, ok a)

abbrev pub throw : {E S A : Type 0} → E → Run E S A
throw e s = (s, err e)

abbrev pub get : {E S A : Type 0} → (S → A) → Run E S A
get f s = (s, ok (f s))

abbrev pub modify : {E S : Type 0} → (S → S) → Run E S (Unit {0})
modify f s = (f s, ok tt)

-- Goes on where the test holds.
abbrev pub guard : {E S : Type 0} → Bool → E → Run E S (Unit {0})
guard true e s = (s, ok tt)
guard false e s = (s, err e)

-- A loop over a list that stops at the first failure.
unfoldable pub for_each : {E S X : Type 0} → List X → (X → Run E S (Unit {0})) → Run E S (Unit {0})
for_each [] body = pure tt
for_each (x ∷ xs) body = body x >> for_each xs body

pub Result-cases :
    {E A : Type 0} (r : Result E A) → ((a : A) × (r ≡ ok a)) ⊎ ((e : E) × (r ≡ err e))
Result-cases (ok a) = inl (a, refl)
Result-cases (err e) = inr (e, refl)

-- What a run keeps, on success and on failure.
abbrev pub Keeps : {E S A : Type 0} → (S → Type 0) → Run E S A → Type 0
Keeps {S} P m = (s : S) → P s → P (m s).0

-- The parts of a run that succeeds.
pub >>=-eq-ok :
    {E S A B : Type 0} (m : Run E S A) (f : A → Run E S B) (s : S) {s' : S} {b : B}
    → (m >>= f) s ≡ (s', ok b)
    → (a : A) × ((m s).1 ≡ ok a) × (f a (m s).0 ≡ (s', ok b))
>>=-eq-ok m f s h = elim (Result-cases (m s).1) [
  | inl (a, e) ↦ (a, e, ground (arith, e))
  | inr (x, e) ↦ absurd (ground (arith, e))
]

module _ {E S : Type 0} (P : S → Type 0) where
  pub bind-Keeps :
      {A B : Type 0} (m : Run E S A) (f : A → Run E S B)
      → Keeps P m
      → ((a : A) → Keeps P (f a))
      → Keeps P (m >>= f)
  bind-Keeps m f hm hf s p = elim (Result-cases (m s).1) [
    | inl (a, e) ↦ rw (e, ◌>>=◌) (hf a (m s).0 (hm s p))
    | inr (b, e) ↦ rw (e, ◌>>=◌) (hm s p)
  ]

  pub for_each-Keeps :
      {X : Type 0} (xs : List X) (body : X → Run E S (Unit {0}))
      → ((x : X) → Keeps P (body x))
      → Keeps P (for_each xs body)
  unfolding for_each
  for_each-Keeps [] body h s p = p
  for_each-Keeps (x ∷ xs) body h s p =
      bind-Keeps (body x) (λ _. for_each xs body) (h x) (λ _. for_each-Keeps xs body h) s p

  pub for_each-Keeps_of :
      {X : Type 0} (Q : X → Type 0) (xs : List X) (body : X → Run E S (Unit {0}))
      → All Q xs
      → ((x : X) → Q x → Keeps P (body x))
      → Keeps P (for_each xs body)
  unfolding for_each
  for_each-Keeps_of Q [] body all h s p = p
  for_each-Keeps_of Q (x ∷ xs) body all h s p =
      bind-Keeps (body x) (λ _. for_each xs body) (h x all.0)
        (λ _. for_each-Keeps_of Q xs body all.1 h) s p

-- A run that keeps P, and then one that leads from P to Q.
pub bind-Keeps-then :
    {E S A B : Type 0} (P Q : S → Type 0) (m : Run E S A) (f : A → Run E S B)
    → Keeps P m
    → ((s : S) → P s → Q s)
    → ((a : A) (s : S) → P s → Q (f a s).0)
    → (s : S) → P s
    → Q ((m >>= f) s).0
bind-Keeps-then P Q m f hm weaken hf s p = elim (Result-cases (m s).1) [
  | inl (a, e) ↦ rw (e, ◌>>=◌) (hf a (m s).0 (hm s p))
  | inr (b, e) ↦ rw (e, ◌>>=◌) (weaken (m s).0 (hm s p))
]

-- A sequence that succeeds: its first part does, and it ends as the second part does from there.
pub >>-ok :
    {E S A B : Type 0} (m : Run E S A) (k : Run E S B) (s : S) {b : B}
    → ((m >> k) s).1 ≡ ok b
    → ((a : A) × ((m s).1 ≡ ok a)) × (((k (m s).0).1 ≡ ok b) × ((k (m s).0).0 ≡ ((m >> k) s).0))
>>-ok m k s h = elim (Result-cases (m s).1) [
  | inl (a, e) ↦ ((a, e), (ground (arith, e), ground (arith, e)))
  | inr (x, e) ↦ absurd (ground (arith, e))
]

-- What holds of the state after a sequence, from what each part leaves.
pub >>-state :
    {E S A B : Type 0} (P : S → Type 0) (m : Run E S A) (k : Run E S B) (s : S)
    → ((e : E) → (m s).1 ≡ err e → P (m s).0)
    → ((a : A) → (m s).1 ≡ ok a → P (k (m s).0).0)
    → P ((m >> k) s).0
>>-state P m k s failing passing = elim (Result-cases (m s).1) [
  | inl (a, e) ↦ rw (e, ◌>>=◌) (passing a e)
  | inr (x, e) ↦ rw (e, ◌>>=◌) (failing x e)
]
