-- ===== src/Font/Canvas.antt =====
-- Where draw_text of runtime/src/jni_bridge.c writes.
use native.Mathlib.Nat.{mul_comm, mul-le-mul_right}
use nfsmw_arm_linux.Prelude.{
  ℕ, suc, ◌+◌, ◌*◌, ◌≤◌, ◌<◌, ◌≡◌, refl, ◌∙◌, inl, inr, List, [], ◌∷◌, Bytes, arith, Bool-cases,
}
use nfsmw_arm_linux.Prelude.Int.{ℤ, pos, sub_ℕ, pos_part, ◌+ℤ◌}
use nfsmw_arm_linux.Memory.{Memory, Outside, write32-Outside}
use nfsmw_arm_linux.Elf.Format.{indices}
use nfsmw_arm_linux.Font.{
  Bitmap, byte_count, new_bitmap_graphics, clipped, paint_pixel, for_all, paint_square, draw_column,
  draw_character, draw_text,
}

-- The rows of a bitmap stand one behind the other.
abbrev pub Packed : Bitmap → Type 0
Packed bitmap = bitmap.stride ≡ bitmap.width * 4

-- A pixel inside the bitmap stands in its bytes.
pixel_fits :
    (x y width height stride : ℕ)
    → x < width
    → y < height
    → stride ≡ width * 4
    → y * stride + x * 4 + 4 ≤ stride * height
pixel_fits x y width height stride in_row in_column packed =
    omega (arith, mul-le-mul_right stride in_column, mul_comm stride height, next)
  where
    next : suc y * stride ≡ y * stride + stride
    next = omega arith

module _ (bitmap : Bitmap) (packed : Packed bitmap) (a : ℕ)
    (out : Outside bitmap.bytes (byte_count bitmap) a) where
  abbrev Same : (Memory → Memory) → Type 0
  Same change = (m : Memory) → change m a ≡ m a

  for_all-Same :
      {X : Type 0} (xs : List X) (body : X → Memory → Memory)
      → ((x : X) → Same (body x))
      → Same (for_all xs body)
  unfolding for_all
  for_all-Same [] body h m = refl
  for_all-Same (x ∷ xs) body h m = for_all-Same xs body h (body x m) ∙ h x m

  paint_pixel-Same : (x y : ℤ) → Same (paint_pixel bitmap x y)
  unfolding paint_pixel clipped byte_count
  paint_pixel-Same x y m = elim (Bool-cases (clipped bitmap x y)) [
    | inl off ↦ ground (arith, off)
    | inr on ↦
        let fits =
          pixel_fits (pos_part x) (pos_part y) bitmap.width bitmap.height bitmap.stride
            (ground (arith, on)) (ground (arith, on)) packed in
        let place = bitmap.bytes + pos_part y * bitmap.stride + pos_part x * 4 in
        ground (arith, on, write32-Outside m place 0xffffffff a (apart fits out))
  ]
    where
      apart :
          pos_part y * bitmap.stride + pos_part x * 4 + 4 ≤ bitmap.stride * bitmap.height
          → Outside bitmap.bytes (bitmap.stride * bitmap.height) a
          → Outside (bitmap.bytes + pos_part y * bitmap.stride + pos_part x * 4) 4 a
      apart fits (inl h) = inl (omega (arith, fits, h))
      apart fits (inr h) = inr (omega (arith, fits, h))

  paint_square-Same : (scale : ℕ) (x y : ℤ) → Same (paint_square bitmap scale x y)
  unfolding paint_square
  paint_square-Same scale x y =
      for_all-Same (indices 0 scale)
        (λ inner_y.
          for_all (indices 0 scale)
            (λ inner_x. paint_pixel bitmap (x +ℤ pos inner_x) (y +ℤ pos inner_y)))
        (λ inner_y.
          for_all-Same (indices 0 scale)
            (λ inner_x. paint_pixel bitmap (x +ℤ pos inner_x) (y +ℤ pos inner_y))
            (λ inner_x. paint_pixel-Same (x +ℤ pos inner_x) (y +ℤ pos inner_y)))

  draw_column-Same :
      (scale : ℕ) (x y : ℤ) (character row column : ℕ)
      → Same (draw_column bitmap scale x y character row column)
  unfolding draw_column
  draw_column-Same scale x y character row column m = ground (
    arith,
    paint_square-Same scale (x +ℤ pos (column * scale)) (y +ℤ sub_ℕ (row * scale) (7 * scale)) m,
  )

  draw_character-Same :
      (scale : ℕ) (x y : ℤ) (character : ℕ) → Same (draw_character bitmap scale x y character)
  unfolding draw_character
  draw_character-Same scale x y character =
      for_all-Same (indices 0 7)
        (λ row. for_all (indices 0 5) (λ column. draw_column bitmap scale x y character row column))
        (λ row.
          for_all-Same (indices 0 5) (draw_column bitmap scale x y character row)
            (λ column. draw_column-Same scale x y character row column))

  draw_text-Same : (text : Bytes) (scale : ℕ) (x y : ℤ) → Same (draw_text bitmap scale x y text)
  unfolding draw_text
  draw_text-Same [] scale x y m = refl
  draw_text-Same (character ∷ text) scale x y m =
      draw_text-Same text scale (x +ℤ pos (6 * scale)) y
        (draw_character bitmap scale x y character m)
      ∙ draw_character-Same scale x y character m

new_bitmap-Packed : (bytes : ℕ) (width height : ℤ) → Packed (new_bitmap_graphics bytes width height)
unfolding new_bitmap_graphics
new_bitmap-Packed bytes width height = ground arith

-- Whatever the text, its scale and its place, and whatever dimensions the guest asked for, drawing on a
-- bitmap of new_bitmap_graphics changes no byte outside those that were allocated for it.
pub draw_text-Outside :
    (bytes : ℕ) (width height : ℤ) (scale : ℕ) (cursor_x baseline_y : ℤ) (text : Bytes) (m : Memory)
    (a : ℕ)
    → Outside bytes (byte_count (new_bitmap_graphics bytes width height)) a
    → draw_text (new_bitmap_graphics bytes width height) scale cursor_x baseline_y text m a ≡ m a
unfolding new_bitmap_graphics
draw_text-Outside bytes width height scale cursor_x baseline_y text m a out =
    draw_text-Same (new_bitmap_graphics bytes width height) (new_bitmap-Packed bytes width height) a
      out text scale cursor_x baseline_y m
