-- ===== src/Arrays/Tests.antt =====
-- A region in the middle of an array of bytes.
use nfsmw_arm_linux.Prelude.{ℕ, ◌+◌, ◌≡◌, ◌≤◌, ◌<◌, ◌⊎◌, refl, true, some, [], ◌∷◌, length, get_or}
use nfsmw_arm_linux.Prelude.Int.{pos, negsuc}
use nfsmw_arm_linux.Arrays.{
  Array, byte_array, int_array, copied, refused, undefined, valid_region, filled,
  jni_new_primitive_array, jni_array_region, jni_set_array_region,
}
use nfsmw_arm_linux.Arrays.Regions.{written, jni_set_array_region-region}

abbrev bytes : Array
bytes = record { kind = byte_array; values = 1 ∷ 2 ∷ 3 ∷ 4 ∷ [] }

-- A negative start is refused; an array of another kind has no bytes.
unread :
    (jni_array_region byte_array (some bytes) (negsuc 0) (pos 2) ≡ refused)
    × (jni_array_region byte_array
          (some (jni_new_primitive_array int_array (pos 3)))
          (pos 0)
          (pos 2)
        ≡ undefined)
unfolding jni_array_region jni_new_primitive_array valid_region filled
unread = (refl, refl)

inside : valid_region bytes (pos 1) (pos 2) ≡ true
unfolding valid_region
inside = refl

jni_set_array_region-region_example :
    (jni_set_array_region byte_array (some bytes) (pos 1) (8 ∷ 9 ∷ [])
      ≡ copied (written bytes (pos 1) (8 ∷ 9 ∷ [])))
    × ((jni_array_region byte_array (some (written bytes (pos 1) (8 ∷ 9 ∷ []))) (pos 1) (pos 2)
          ≡ copied (8 ∷ 9 ∷ []))
        × ((length (written bytes (pos 1) (8 ∷ 9 ∷ [])).values ≡ 4)
            × ((j : ℕ)
                → (j < 1) ⊎ (1 + 2 ≤ j)
                → get_or (written bytes (pos 1) (8 ∷ 9 ∷ [])).values j 0
                  ≡ get_or (bytes.values) j 0)))
jni_set_array_region-region_example =
    jni_set_array_region-region byte_array bytes (pos 1) (8 ∷ 9 ∷ []) refl inside
