-- ===== src/Fmod/Path.antt =====
-- nfsmw_fmod_audio_path stays below the sounds of the root.
use nfsmw_arm_linux.Prelude.{
  ℕ, ◌<◌, ◌≡◌, refl, sym, ap, ◌∙◌, subst, inl, inr, false, some, [], ◌∷◌, ◌++◌, arith, ◌==◌, length,
  Bytes, codes, strip_prefix, strip_prefix-some, Bool-cases, Option-cases,
}
use nfsmw_arm_linux.Obb.Index.{skip_slashes}
use nfsmw_arm_linux.Fmod.{has_dots, published, sounds, relative, nfsmw_fmod_audio_path}

has_dots-tail : (c : ℕ) (cs : Bytes) → has_dots (c ∷ cs) ≡ false → has_dots cs ≡ false
unfolding has_dots
has_dots-tail c [] h = refl
has_dots-tail c (d ∷ ds) h = ground (arith, h)

has_dots-suffix : (xs ys : Bytes) → has_dots (xs ++ ys) ≡ false → has_dots ys ≡ false
has_dots-suffix [] ys h = h
has_dots-suffix (x ∷ xs) ys h = has_dots-suffix xs ys (has_dots-tail x (xs ++ ys) h)

has_dots-skip : (cs : Bytes) → has_dots cs ≡ false → has_dots (skip_slashes cs) ≡ false
unfolding skip_slashes
has_dots-skip [] h = h
has_dots-skip (c ∷ cs) h = elim (Bool-cases (c == b'/')) [
  | inl e ↦ rw e (has_dots-skip cs (has_dots-tail c cs h))
  | inr e ↦ rw e h
]

-- A path below the root's sounds, without two dots in a row.
pub record Below (root path : Bytes) : Type 0 where
  pub rest : Bytes
  pub is_below : path ≡ root ++ (codes "/" ++ (published ++ (sounds ++ rest)))
  pub no_dots : has_dots rest ≡ false

relative-sounds :
    (name : Bytes) {rel : Bytes}
    → has_dots name ≡ false
    → relative name ≡ some rel
    → (rest : Bytes) × ((rel ≡ sounds ++ rest) × (has_dots rest ≡ false))
unfolding relative
relative-sounds name {rel} clean e = elim (Option-cases (strip_prefix (published ++ sounds) name)) [
  | inr (rest, is) ↦ (
    rest,
    (
      ground (arith, is),
      has_dots-suffix (published ++ sounds) rest
          (subst (λ n. has_dots n ≡ false) (strip_prefix-some (published ++ sounds) name is) clean),
    ),
  )
  | inl other ↦ elim (Option-cases (strip_prefix sounds name)) [
    | inr (rest, is) ↦ (
      rest,
      (
        ground (arith, other, is) ∙ strip_prefix-some sounds name is,
        has_dots-suffix sounds rest
            (subst (λ n. has_dots n ≡ false) (strip_prefix-some sounds name is) clean),
      ),
    )
    | inl neither ↦ absurd (ground (arith, other, neither))
  ]
]

-- A path that nfsmw_fmod_audio_path gives fits in the buffer with its NUL, and is the root, then
-- "/published/sounds/", then a name without two dots in a row, whatever name was asked for.
pub nfsmw_fmod_audio_path-Below :
    (root name : Bytes) (size : ℕ) {path : Bytes}
    → nfsmw_fmod_audio_path (some root) (some name) size ≡ some path
    → Below root path × (length path < size)
unfolding nfsmw_fmod_audio_path
nfsmw_fmod_audio_path-Below [] name size e = absurd (ground arith)
nfsmw_fmod_audio_path-Below (c ∷ cs) name size {path} e = elim (Bool-cases (has_dots name)) [
  | inl dots ↦ absurd (ground (arith, dots))
  | inr clean ↦ elim (Option-cases (relative (skip_slashes name))) [
    | inl none_such ↦ absurd (ground (arith, clean, none_such))
    | inr (rel, is) ↦
        let below = relative-sounds (skip_slashes name) (has_dots-skip name clean) is in
        let path_of : (c ∷ cs) ++ (codes "/" ++ (published ++ rel)) ≡ path =
          ground (arith, clean, is) in
        (
          record {
            rest = below.0;
            is_below =
                sym path_of ∙ ap (λ r. (c ∷ cs) ++ (codes "/" ++ (published ++ r))) below.1.0;
            no_dots = below.1.1;
          },
          ground (arith, clean, is),
        )
  ]
]

has_dots-published : (rest : Bytes) → has_dots (published ++ (sounds ++ rest)) ≡ has_dots rest
unfolding has_dots
has_dots-published [] = refl
has_dots-published (c ∷ cs) = refl

has_dots-sounds : (rest : Bytes) → has_dots (sounds ++ rest) ≡ has_dots rest
unfolding has_dots
has_dots-sounds [] = refl
has_dots-sounds (c ∷ cs) = refl

-- Where a name under "sounds/" has no two dots in a row and the resulting path fits in the buffer
-- with its NUL, nfsmw_fmod_audio_path gives the same path for it with and without "published/" before
-- it: the one below the root, which is not empty.
pub nfsmw_fmod_audio_path-accepts :
    (c : ℕ) (cs rest : Bytes) (size : ℕ)
    → has_dots rest ≡ false
    → length ((c ∷ cs) ++ (codes "/" ++ (published ++ (sounds ++ rest)))) < size
    → (nfsmw_fmod_audio_path (some (c ∷ cs)) (some (sounds ++ rest)) size
        ≡ some ((c ∷ cs) ++ (codes "/" ++ (published ++ (sounds ++ rest)))))
      × (nfsmw_fmod_audio_path (some (c ∷ cs)) (some (published ++ (sounds ++ rest))) size
          ≡ some ((c ∷ cs) ++ (codes "/" ++ (published ++ (sounds ++ rest)))))
unfolding nfsmw_fmod_audio_path skip_slashes relative strip_prefix
nfsmw_fmod_audio_path-accepts c cs rest size clean fits =
    (ground (arith, has_dots-sounds rest), ground (arith, has_dots-published rest))
