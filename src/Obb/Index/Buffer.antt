-- ===== src/Obb/Index/Buffer.antt =====
-- The buffer of nfsmw_obb_list: it holds the directory's name and a slash, or is overrun.
use mathlib.Core.List.{append-nil, append_assoc}
use nfsmw_arm_linux.Prelude.{
  ℕ, ◌+◌, ◌≢◌, ◌≤◌, ◌<◌, ◌≡◌, refl, ◌↔◌, ◌∙◌, ap, sym, inl, inr, Bool, Option, none, some, [], ◌∷◌,
  ◌++◌, arith, Bool-cases, length, length-append, Bytes, leb, ltb, take, take-length-append,
}
use nfsmw_arm_linux.Obb.Parse.{Index, slash}
use nfsmw_arm_linux.Obb.Index.{
  normalize, trim_slashes, push, push_all, fill_prefix, prefix_length, list_under, overflow,
  nfsmw_obb_list,
}

-- The names under a directory start with its name and a slash; at the top, with nothing.
unfoldable pub list_prefix : Bytes → Bytes
list_prefix [] = []
list_prefix (c ∷ cs) = (c ∷ cs) ++ (slash ∷ [])

-- Bytes that fit are all copied.
push_all-fits :
    (bytes buffer : Bytes)
    → length buffer + length bytes ≤ 4096
    → push_all bytes buffer ≡ some (buffer ++ bytes)
unfolding push_all push
push_all-fits [] buffer h = ap some (sym (append-nil buffer))
push_all-fits (b ∷ bytes) buffer h = ground (
  arith,
  push_all-fits bytes (buffer ++ (b ∷ [])) (ground (arith, length-append buffer (b ∷ []))),
  append_assoc buffer (b ∷ []) bytes,
)

-- Bytes that do not fit run past the end.
push_all-overruns :
    (bytes buffer : Bytes)
    → length buffer ≤ 4096
    → 4096 < length buffer + length bytes
    → push_all bytes buffer ≡ none
unfolding push_all push
push_all-overruns [] buffer fits h = absurd (ground arith)
push_all-overruns (b ∷ bytes) buffer fits h = elim (Bool-cases (ltb (length buffer) 4096)) [
  | inr e ↦ ground (arith, e)
  | inl e ↦
      ground (arith, e, length-append buffer (b ∷ []), push_all-overruns bytes (buffer ++ (b ∷ [])))
]

fill_prefix-fits :
    (wanted : Bytes)
    → length wanted < 4095
    → fill_prefix wanted ≡ some (list_prefix wanted ++ (0 ∷ []))
unfolding fill_prefix list_prefix push
fill_prefix-fits [] h = refl
fill_prefix-fits (c ∷ cs) h =
    push_all-fits ((c ∷ cs) ++ (slash ∷ 0 ∷ [])) []
      (ground (arith, length-append (c ∷ cs) (slash ∷ 0 ∷ [])))
    ∙ ap some (sym (append_assoc (c ∷ cs) (slash ∷ []) (0 ∷ [])))

fill_prefix-overruns : (wanted : Bytes) → 4095 ≤ length wanted → fill_prefix wanted ≡ none
unfolding fill_prefix
fill_prefix-overruns [] h = absurd (ground arith)
fill_prefix-overruns (c ∷ cs) h =
    push_all-overruns ((c ∷ cs) ++ (slash ∷ 0 ∷ [])) [] (omega arith)
      (ground (arith, length-append (c ∷ cs) (slash ∷ 0 ∷ [])))

prefix_length-list_prefix : (wanted : Bytes) → prefix_length wanted ≡ length (list_prefix wanted)
unfolding prefix_length list_prefix
prefix_length-list_prefix [] = refl
prefix_length-list_prefix (c ∷ cs) = ground (arith, length-append (c ∷ cs) (slash ∷ []))

module _ (realloc_ok : ℕ → Bool) (index : Index) (path : Option Bytes) where
  pub nfsmw_obb_list-fits :
      length (trim_slashes (normalize path)) < 4095
      → nfsmw_obb_list realloc_ok index path
        ≡ list_under realloc_ok index (list_prefix (trim_slashes (normalize path)))
  unfolding nfsmw_obb_list
  nfsmw_obb_list-fits short =
      let wanted = trim_slashes (normalize path) in
      rw (fill_prefix-fits wanted short, nfsmw_obb_list)
        (ap (list_under realloc_ok index) (
          ap (λ n. take n (list_prefix wanted ++ (0 ∷ []))) (prefix_length-list_prefix wanted)
          ∙ take-length-append (list_prefix wanted) (0 ∷ [])))

  nfsmw_obb_list-overruns :
      4095 ≤ length (trim_slashes (normalize path))
      → nfsmw_obb_list realloc_ok index path ≡ overflow
  unfolding nfsmw_obb_list
  nfsmw_obb_list-overruns long =
      rw (fill_prefix-overruns (trim_slashes (normalize path)) long, nfsmw_obb_list) refl

list_under-overflow :
    (realloc_ok : ℕ → Bool) (index : Index) (prefix : Bytes)
    → list_under realloc_ok index prefix ≢ overflow
unfolding list_under
list_under-overflow realloc_ok index prefix h = ground arith

-- nfsmw_obb_list, which copies the directory's name, a slash and a NUL byte by byte, writes past its
-- buffer of NAME_LIMIT bytes exactly if that name, its leading and trailing slashes gone, has 4095
-- bytes or more.
pub nfsmw_obb_list-overflow_iff :
    (realloc_ok : ℕ → Bool) (index : Index) (path : Option Bytes)
    → (nfsmw_obb_list realloc_ok index path ≡ overflow)
      ↔ (4095 ≤ length (trim_slashes (normalize path)))
nfsmw_obb_list-overflow_iff realloc_ok index path =
    let wanted = trim_slashes (normalize path) in
    (
      (λ h. elim (Bool-cases (leb 4095 (length wanted))) [
        | inl e ↦ ground (arith, e)
        | inr e ↦ absurd (
            list_under-overflow realloc_ok index (list_prefix wanted)
              (sym (nfsmw_obb_list-fits realloc_ok index path (ground (arith, e))) ∙ h))
      ]),
      nfsmw_obb_list-overruns realloc_ok index path,
    )
