-- ===== src/Arrays/Regions.antt =====
-- Writing a region of an array and reading it back.
use nfsmw_arm_linux.Prelude.{
  ℕ, zero, suc, ◌+◌, ◌≤◌, ◌<◌, ◌≡◌, ◌≢◌, ◌⊎◌, inl, inr, refl, ap, ap₂, ◌∙◌, true, List, [], ◌∷◌,
  some, arith, length, set, get_or,
}
use nfsmw_arm_linux.Prelude.Int.{ℤ, pos, pos_part}
use nfsmw_arm_linux.Arrays.{
  ArrayKind, Array, copied, same_kind, valid_region, copy_out, copy_in_region, jni_array_region,
  jni_set_array_region,
}

set-length : (xs : List ℕ) (i v : ℕ) → length (set xs i v) ≡ length xs
set-length [] i v = refl
set-length (x ∷ xs) zero v = refl
set-length (x ∷ xs) (suc i) v = ap suc (set-length xs i v)

get_or-set : (xs : List ℕ) (i v : ℕ) → i < length xs → get_or (set xs i v) i 0 ≡ v
get_or-set [] i v h = absurd (omega arith)
get_or-set (x ∷ xs) zero v h = refl
get_or-set (x ∷ xs) (suc i) v h = get_or-set xs i v (omega arith)

get_or-set_apart : (xs : List ℕ) (i j v : ℕ) → j ≢ i → get_or (set xs i v) j 0 ≡ get_or xs j 0
get_or-set_apart [] i j v h = refl
get_or-set_apart (x ∷ xs) zero zero v h = absurd (h refl)
get_or-set_apart (x ∷ xs) zero (suc j) v h = refl
get_or-set_apart (x ∷ xs) (suc i) zero v h = refl
get_or-set_apart (x ∷ xs) (suc i) (suc j) v h = get_or-set_apart xs i j v (λ e. h (ap suc e))

copy_in_region-length :
    (xs : List ℕ) (at : ℕ) (buffer : List ℕ) → length (copy_in_region xs at buffer) ≡ length xs
unfolding copy_in_region
copy_in_region-length xs at [] = refl
copy_in_region-length xs at (v ∷ buffer) =
    copy_in_region-length (set xs at v) (suc at) buffer ∙ set-length xs at v

-- Values before the region stay.
copy_in_region-before :
    (xs : List ℕ) (at : ℕ) (buffer : List ℕ) (j : ℕ)
    → j < at
    → get_or (copy_in_region xs at buffer) j 0 ≡ get_or xs j 0
unfolding copy_in_region
copy_in_region-before xs at [] j h = refl
copy_in_region-before xs at (v ∷ buffer) j h =
    copy_in_region-before (set xs at v) (suc at) buffer j (omega arith)
    ∙ get_or-set_apart xs at j v (λ e. absurd (omega arith))

copy_out-copy_in :
    (xs : List ℕ) (at : ℕ) (buffer : List ℕ)
    → at + length buffer ≤ length xs
    → copy_out (copy_in_region xs at buffer) at (length buffer) ≡ buffer
unfolding copy_out copy_in_region
copy_out-copy_in xs at [] h = refl
copy_out-copy_in xs at (v ∷ buffer) h =
    ap₂ ◌∷◌
      (copy_in_region-before (set xs at v) (suc at) buffer at (omega arith)
        ∙ get_or-set xs at v (omega arith))
      (copy_out-copy_in (set xs at v) (suc at) buffer (omega (arith, set-length xs at v)))

copy_in_region-after :
    (xs : List ℕ) (at : ℕ) (buffer : List ℕ) (j : ℕ)
    → at + length buffer ≤ j
    → get_or (copy_in_region xs at buffer) j 0 ≡ get_or xs j 0
unfolding copy_in_region
copy_in_region-after xs at [] j h = refl
copy_in_region-after xs at (v ∷ buffer) j h =
    copy_in_region-after (set xs at v) (suc at) buffer j (omega arith)
    ∙ get_or-set_apart xs at j v (λ e. absurd (omega arith))

-- The array after a region was written.
abbrev pub written : Array → (start : ℤ) → (buffer : List ℕ) → Array
written array start buffer = record array {
  values = copy_in_region array.values (pos_part start) buffer;
}

-- For an array of the kind that a region function is for, and a range that lies in it: writing the region
-- succeeds and reading it back gives what was written; the length, and every value before or behind the
-- region, is what it was.
pub jni_set_array_region-region :
    (kind : ArrayKind) (array : Array) (start : ℤ) (buffer : List ℕ)
    → same_kind array.kind kind ≡ true
    → valid_region array start (pos (length buffer)) ≡ true
    → (jni_set_array_region kind (some array) start buffer ≡ copied (written array start buffer))
      × ((jni_array_region kind (some (written array start buffer)) start (pos (length buffer))
            ≡ copied buffer)
          × ((length (written array start buffer).values ≡ length array.values)
              × ((j : ℕ)
                  → (j < pos_part start) ⊎ (pos_part start + length buffer ≤ j)
                  → get_or (written array start buffer).values j 0 ≡ get_or array.values j 0)))
unfolding jni_set_array_region jni_array_region valid_region
jni_set_array_region-region kind array start buffer same valid =
    let kept = copy_in_region-length array.values (pos_part start) buffer in
    let back = copy_out-copy_in array.values (pos_part start) buffer (ground arith) in
    (ground arith, (ground (arith, kept, back), (kept, outside)))
  where
    outside :
        (j : ℕ)
        → (j < pos_part start) ⊎ (pos_part start + length buffer ≤ j)
        → get_or (written array start buffer).values j 0 ≡ get_or array.values j 0
    outside j (inl h) = copy_in_region-before array.values (pos_part start) buffer j h
    outside j (inr h) = copy_in_region-after array.values (pos_part start) buffer j h
