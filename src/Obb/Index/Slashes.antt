-- ===== src/Obb/Index/Slashes.antt =====
-- How nfsmw_obb_asset_size treats the slashes around a name.
use nfsmw_arm_linux.Prelude.{
  ℕ, zero, suc, ◌==◌, ◌≡◌, refl, ap, ◌≢◌, ◌⊎◌, inl, inr, Bool-cases, [], ◌∷◌, ◌++◌, arith, length,
  Bytes,
}
use nfsmw_arm_linux.Obb.Parse.{slash}
use nfsmw_arm_linux.Obb.Index.{skip_slashes, trim_step, trim_slashes, drop_slash}

-- So many slashes.
abbrev pub slashes : ℕ → Bytes
slashes zero = []
slashes (suc n) = slash ∷ slashes n

-- The first byte is no slash.
abbrev pub BeginsPlain : Bytes → Type 0
BeginsPlain [] = ⊥
BeginsPlain (c ∷ cs) = c ≢ slash

-- The last byte is no slash.
abbrev pub EndsPlain : Bytes → Type 0
EndsPlain [] = ⊥
EndsPlain (c ∷ []) = c ≢ slash
EndsPlain (c ∷ d ∷ ds) = EndsPlain (d ∷ ds)

pub length-slashes : (n : ℕ) → length (slashes n) ≡ n
length-slashes zero = refl
length-slashes (suc n) = ap suc (length-slashes n)

pub EndsPlain-append : (q p : Bytes) → EndsPlain p → EndsPlain (q ++ p)
EndsPlain-append [] p h = h
EndsPlain-append (c ∷ []) [] h = absurd h
EndsPlain-append (c ∷ []) (d ∷ ds) h = h
EndsPlain-append (c ∷ d ∷ ds) p h = EndsPlain-append (d ∷ ds) p h

pub skip_slashes-append :
    (m : ℕ) (c : ℕ) (cs : Bytes) → c ≢ slash → skip_slashes (slashes m ++ (c ∷ cs)) ≡ c ∷ cs
unfolding skip_slashes
skip_slashes-append zero c cs h = ground arith
skip_slashes-append (suc m) c cs h = skip_slashes-append m c cs h

trim_slashes-slashes : (n : ℕ) → trim_slashes (slashes n) ≡ []
unfolding trim_slashes trim_step
trim_slashes-slashes zero = refl
trim_slashes-slashes (suc n) = rw (trim_slashes-slashes n) refl

pub trim_slashes-append : (p : Bytes) (n : ℕ) → EndsPlain p → trim_slashes (p ++ slashes n) ≡ p
unfolding trim_slashes trim_step
trim_slashes-append [] n h = absurd h
trim_slashes-append (c ∷ []) n h = rw (trim_slashes-slashes n) (ground arith)
trim_slashes-append (c ∷ d ∷ ds) n h = rw (trim_slashes-append (d ∷ ds) n h) refl

pub drop_slash-plain : (key : Bytes) → EndsPlain key → drop_slash key ≡ key
unfolding drop_slash
drop_slash-plain [] h = absurd h
drop_slash-plain (c ∷ []) h = ground arith
drop_slash-plain (c ∷ d ∷ ds) h = ap (λ l. c ∷ l) (drop_slash-plain (d ∷ ds) h)

pub drop_slash-slash : (key : Bytes) → drop_slash (key ++ (slash ∷ [])) ≡ key
unfolding drop_slash
drop_slash-slash [] = refl
drop_slash-slash (c ∷ []) = refl
drop_slash-slash (c ∷ d ∷ ds) = ap (λ l. c ∷ l) (drop_slash-slash (d ∷ ds))

pub drop_slash-cases :
    (name : Bytes) → (name ≡ drop_slash name) ⊎ (name ≡ drop_slash name ++ (slash ∷ []))
unfolding drop_slash
drop_slash-cases [] = inl refl
drop_slash-cases (c ∷ []) = elim (Bool-cases (c == slash)) [
  | inl e ↦ inr (ground (arith, e))
  | inr e ↦ inl (ground (arith, e))
]
drop_slash-cases (c ∷ d ∷ ds) = elim (drop_slash-cases (d ∷ ds)) [
  | inl e ↦ inl (ap (λ l. c ∷ l) e)
  | inr e ↦ inr (ap (λ l. c ∷ l) e)
]
