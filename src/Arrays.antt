-- ===== src/Arrays.antt =====
-- The arrays that the JNI table of runtime/src/jni_bridge.c gives the guest: creation, length, elements and
-- regions. A value that is no object of the bridge is `none`. calloc succeeds, or the process aborts.
pub mod Regions
mod Tests
use nfsmw_arm_linux.Prelude.{
  ℕ, zero, suc, ◌+◌, Bool, true, false, ◌||◌, ◌&&◌, not, Option, none, some, List, [], ◌∷◌,
  if◌then◌else◌, ◌==◌, ltb, leb, length, set, get_or,
}
use nfsmw_arm_linux.Prelude.Int.{ℤ, pos, pos_part, ltb_ℤ}

pub data ArrayKind : Type 0 where
  object_array byte_array int_array long_array : ArrayKind

-- A fake_object of one of these kinds, with the values of its one member that is allocated.
pub record Array : Type 0 where
  pub kind : ArrayKind
  pub values : List ℕ

-- What a region function does: nothing for a bad range, and no defined thing where it would copy from or
-- to the NULL member of an array of another kind.
pub data Access (A : Type 0) : Type 0 where
  copied : A → Access A
  refused undefined : Access A

abbrev pub same_kind : ArrayKind → ArrayKind → Bool
same_kind object_array object_array = true
same_kind byte_array byte_array = true
same_kind int_array int_array = true
same_kind long_array long_array = true
same_kind kind other = false

unfoldable pub filled : ℕ → (value : ℕ) → List ℕ
filled zero value = []
filled (suc n) value = value ∷ filled n value

-- `if (length < 0) length = 0;` is the positive part.
unfoldable pub jni_new_object_array : (length : ℤ) → (initial : ℕ) → Array
jni_new_object_array count initial = record {
  kind = object_array;
  values = filled (pos_part count) initial;
}

unfoldable pub jni_new_primitive_array : ArrayKind → (length : ℤ) → Array
jni_new_primitive_array kind count = record { kind = kind; values = filled (pos_part count) 0 }

unfoldable pub jni_get_array_length : Option Array → ℕ
jni_get_array_length none = 0
jni_get_array_length (some array) = length array.values

abbrev pub in_array : Array → (index : ℤ) → Bool
in_array array index = not (ltb_ℤ index (pos 0)) && ltb (pos_part index) (length array.values)

-- For arrays of objects; NULL is 0.
unfoldable pub jni_get_object_array_element : Option Array → (index : ℤ) → ℕ
jni_get_object_array_element none index = 0
jni_get_object_array_element (some array) index =
    if in_array array index then get_or array.values (pos_part index) 0 else 0

unfoldable pub jni_set_object_array_element : Array → (index : ℤ) → (value : ℕ) → Array
jni_set_object_array_element array index value =
    if in_array array index
    then record array { values = set array.values (pos_part index) value }
    else array

-- `start >= 0 && length >= 0 && (size_t)(start + length) <= array->length`; the sum of two such ints is
-- below 2^32.
unfoldable pub valid_region : Array → (start count : ℤ) → Bool
valid_region array start count =
    not (ltb_ℤ start (pos 0))
    && (not (ltb_ℤ count (pos 0)) && leb (pos_part start + pos_part count) (length array.values))

-- memcpy out of the values, and into them from a buffer.
unfoldable pub copy_out : List ℕ → (start count : ℕ) → List ℕ
copy_out values start zero = []
copy_out values start (suc count) = get_or values start 0 ∷ copy_out values (suc start) count

unfoldable pub copy_in_region : List ℕ → (start : ℕ) → (buffer : List ℕ) → List ℕ
copy_in_region values start [] = values
copy_in_region values start (value ∷ buffer) =
    copy_in_region (set values start value) (suc start) buffer

-- jni_byte_array_region and jni_int_array_region; `kind` is the one whose member they read.
unfoldable pub jni_array_region : ArrayKind → Option Array → (start count : ℤ) → Access (List ℕ)
jni_array_region kind none start count = refused
jni_array_region kind (some array) start count =
    if not (valid_region array start count)
    then refused
    else if same_kind array.kind kind || pos_part count == 0
    then copied (copy_out array.values (pos_part start) (pos_part count))
    else undefined

-- jni_set_byte_array_region and jni_set_int_array_region; the buffer's first values, as many as the call
-- names.
unfoldable pub jni_set_array_region :
    ArrayKind → Option Array → (start : ℤ) → (buffer : List ℕ) → Access Array
jni_set_array_region kind none start buffer = refused
jni_set_array_region kind (some array) start buffer =
    if not (valid_region array start (pos (length buffer)))
    then refused
    else if same_kind array.kind kind || length buffer == 0
    then copied (record array { values = copy_in_region array.values (pos_part start) buffer })
    else undefined
