-- ===== src/Font.antt =====
-- The text that runtime/src/jni_bridge.c draws for the guest's Paint and Canvas objects:
-- new_bitmap_graphics, glyph_row and the loop of draw_text, on a bitmap that its tests found to be one.
-- The scale is fallback_font_scale's, which reads a float; it is a parameter. Coordinates do not overflow.
pub mod Canvas
mod Tests
use nfsmw_arm_linux.Prelude.{
  ℕ, zero, suc, ◌+◌, ◌*◌, ◌-◌, ◌/◌, ◌%◌, ◌^◌, Bool, true, false, ◌||◌, ◌&&◌, List, [], ◌∷◌,
  if◌then◌else◌, ◌==◌, ltb, leb, get_or, Bytes,
}
use nfsmw_arm_linux.Prelude.Int.{ℤ, pos, sub_ℕ, pos_part, ltb_ℤ, ◌+ℤ◌}
use nfsmw_arm_linux.Memory.{Memory, write32}
use nfsmw_arm_linux.Elf.Format.{indices}

-- The members of a FAKE_BITMAP that drawing reads.
pub record Bitmap : Type 0 where
  pub bytes : ℕ
  pub width : ℕ
  pub height : ℕ
  pub stride : ℕ

abbrev pub dimension_limit : ℕ
dimension_limit = 4096

-- `width <= 0 || height <= 0 || width > 4096 || height > 4096`.
unfoldable pub valid_dimensions : (width height : ℤ) → Bool
valid_dimensions width height =
    ltb_ℤ (pos 0) width
    && (ltb_ℤ (pos 0) height
        && (leb (pos_part width) dimension_limit && leb (pos_part height) dimension_limit))

-- The size that calloc is asked for.
unfoldable pub byte_count : Bitmap → ℕ
byte_count bitmap = bitmap.stride * bitmap.height

-- `bytes` is what calloc returns, which is not NULL.
unfoldable pub new_bitmap_graphics : (bytes : ℕ) → (width height : ℤ) → Bitmap
new_bitmap_graphics bytes width height =
    let valid = valid_dimensions width height in
    let columns = if valid then pos_part width else 1 in
    let rows = if valid then pos_part height else 1 in
    record { bytes = bytes; width = columns; height = rows; stride = columns * 4 }

abbrev pub glyphs : List (List ℕ)
glyphs =
    (14 ∷ 17 ∷ 17 ∷ 31 ∷ 17 ∷ 17 ∷ 17 ∷ [])
    ∷ (30 ∷ 17 ∷ 17 ∷ 30 ∷ 17 ∷ 17 ∷ 30 ∷ [])
    ∷ (14 ∷ 17 ∷ 16 ∷ 16 ∷ 16 ∷ 17 ∷ 14 ∷ [])
    ∷ (30 ∷ 17 ∷ 17 ∷ 17 ∷ 17 ∷ 17 ∷ 30 ∷ [])
    ∷ (31 ∷ 16 ∷ 16 ∷ 30 ∷ 16 ∷ 16 ∷ 31 ∷ [])
    ∷ (31 ∷ 16 ∷ 16 ∷ 30 ∷ 16 ∷ 16 ∷ 16 ∷ [])
    ∷ (14 ∷ 17 ∷ 16 ∷ 23 ∷ 17 ∷ 17 ∷ 15 ∷ [])
    ∷ (17 ∷ 17 ∷ 17 ∷ 31 ∷ 17 ∷ 17 ∷ 17 ∷ [])
    ∷ (14 ∷ 4 ∷ 4 ∷ 4 ∷ 4 ∷ 4 ∷ 14 ∷ [])
    ∷ (7 ∷ 2 ∷ 2 ∷ 2 ∷ 18 ∷ 18 ∷ 12 ∷ [])
    ∷ (17 ∷ 18 ∷ 20 ∷ 24 ∷ 20 ∷ 18 ∷ 17 ∷ [])
    ∷ (16 ∷ 16 ∷ 16 ∷ 16 ∷ 16 ∷ 16 ∷ 31 ∷ [])
    ∷ (17 ∷ 27 ∷ 21 ∷ 21 ∷ 17 ∷ 17 ∷ 17 ∷ [])
    ∷ (17 ∷ 25 ∷ 21 ∷ 19 ∷ 17 ∷ 17 ∷ 17 ∷ [])
    ∷ (14 ∷ 17 ∷ 17 ∷ 17 ∷ 17 ∷ 17 ∷ 14 ∷ [])
    ∷ (30 ∷ 17 ∷ 17 ∷ 30 ∷ 16 ∷ 16 ∷ 16 ∷ [])
    ∷ (14 ∷ 17 ∷ 17 ∷ 17 ∷ 21 ∷ 18 ∷ 13 ∷ [])
    ∷ (30 ∷ 17 ∷ 17 ∷ 30 ∷ 20 ∷ 18 ∷ 17 ∷ [])
    ∷ (15 ∷ 16 ∷ 16 ∷ 14 ∷ 1 ∷ 1 ∷ 30 ∷ [])
    ∷ (31 ∷ 4 ∷ 4 ∷ 4 ∷ 4 ∷ 4 ∷ 4 ∷ [])
    ∷ (17 ∷ 17 ∷ 17 ∷ 17 ∷ 17 ∷ 17 ∷ 14 ∷ [])
    ∷ (17 ∷ 17 ∷ 17 ∷ 17 ∷ 17 ∷ 10 ∷ 4 ∷ [])
    ∷ (17 ∷ 17 ∷ 17 ∷ 21 ∷ 21 ∷ 21 ∷ 10 ∷ [])
    ∷ (17 ∷ 17 ∷ 10 ∷ 4 ∷ 10 ∷ 17 ∷ 17 ∷ [])
    ∷ (17 ∷ 17 ∷ 10 ∷ 4 ∷ 4 ∷ 4 ∷ 4 ∷ [])
    ∷ (31 ∷ 1 ∷ 2 ∷ 4 ∷ 8 ∷ 16 ∷ 31 ∷ [])
    ∷ (14 ∷ 17 ∷ 19 ∷ 21 ∷ 25 ∷ 17 ∷ 14 ∷ [])
    ∷ (4 ∷ 12 ∷ 4 ∷ 4 ∷ 4 ∷ 4 ∷ 14 ∷ [])
    ∷ (14 ∷ 17 ∷ 1 ∷ 2 ∷ 4 ∷ 8 ∷ 31 ∷ [])
    ∷ (30 ∷ 1 ∷ 1 ∷ 14 ∷ 1 ∷ 1 ∷ 30 ∷ [])
    ∷ (2 ∷ 6 ∷ 10 ∷ 18 ∷ 31 ∷ 2 ∷ 2 ∷ [])
    ∷ (31 ∷ 16 ∷ 16 ∷ 30 ∷ 1 ∷ 1 ∷ 30 ∷ [])
    ∷ (14 ∷ 16 ∷ 16 ∷ 30 ∷ 17 ∷ 17 ∷ 14 ∷ [])
    ∷ (31 ∷ 1 ∷ 2 ∷ 4 ∷ 8 ∷ 8 ∷ 8 ∷ [])
    ∷ (14 ∷ 17 ∷ 17 ∷ 14 ∷ 17 ∷ 17 ∷ 14 ∷ [])
    ∷ (14 ∷ 17 ∷ 17 ∷ 15 ∷ 1 ∷ 1 ∷ 14 ∷ [])
    ∷ []

abbrev pub between : (low high character : ℕ) → Bool
between low high character = leb low character && leb character high

-- A small letter is drawn as its capital.
unfoldable pub capital : ℕ → ℕ
capital character = if between 97 122 character then character - 97 + 65 else character

-- Signs other than letters and digits.
unfoldable pub sign_row : (character row : ℕ) → ℕ
sign_row character row =
    if character == 45
    then (if row == 3 then 31 else 0)
    else if character == 95
    then (if row == 6 then 31 else 0)
    else if character == 46
    then (if row == 6 then 4 else 0)
    else if character == 58
    then (if row == 2 || row == 5 then 4 else 0)
    else if character == 47
    then 2 ^ (4 - row)
    else if character == 32
    then 0
    else if row == 0 || row == 6
    then 31
    else 17

unfoldable pub glyph_row : (character row : ℕ) → ℕ
glyph_row character row =
    let letter = capital character in
    if between 65 90 letter
    then get_or (get_or glyphs (letter - 65) []) row 0
    else if between 48 57 letter
    then get_or (get_or glyphs (26 + letter - 48) []) row 0
    else sign_row letter row

-- `x < 0 || y < 0 || x >= width || y >= height`.
unfoldable pub clipped : Bitmap → (x y : ℤ) → Bool
clipped bitmap x y =
    ltb_ℤ x (pos 0)
    || (ltb_ℤ y (pos 0) || (leb bitmap.width (pos_part x) || leb bitmap.height (pos_part y)))

-- Four bytes of 255.
unfoldable pub paint_pixel : Bitmap → (x y : ℤ) → Memory → Memory
paint_pixel bitmap x y m =
    if clipped bitmap x y
    then m
    else write32 m (bitmap.bytes + pos_part y * bitmap.stride + pos_part x * 4) 0xffffffff

-- A loop over a list.
unfoldable pub for_all : {X : Type 0} → List X → (X → Memory → Memory) → Memory → Memory
for_all [] body m = m
for_all (x ∷ xs) body m = for_all xs body (body x m)

-- A square of scale by scale pixels.
unfoldable pub paint_square : Bitmap → (scale : ℕ) → (pixel_x pixel_y : ℤ) → Memory → Memory
paint_square bitmap scale pixel_x pixel_y = for_all (indices 0 scale) (λ inner_y.
    for_all (indices 0 scale)
      (λ inner_x. paint_pixel bitmap (pixel_x +ℤ pos inner_x) (pixel_y +ℤ pos inner_y)))

unfoldable pub draw_column :
    Bitmap → (scale : ℕ) → (cursor_x baseline_y : ℤ) → (character row column : ℕ) → Memory → Memory
draw_column bitmap scale cursor_x baseline_y character row column m =
    if glyph_row character row / 2 ^ (4 - column) % 2 == 0
    then m
    else paint_square bitmap scale (cursor_x +ℤ pos (column * scale))
        (baseline_y +ℤ sub_ℕ (row * scale) (7 * scale)) m

unfoldable pub draw_character :
    Bitmap → (scale : ℕ) → (cursor_x baseline_y : ℤ) → (character : ℕ) → Memory → Memory
draw_character bitmap scale cursor_x baseline_y character = for_all (indices 0 7) (λ row.
    for_all (indices 0 5)
      (λ column. draw_column bitmap scale cursor_x baseline_y character row column))

-- The characters before the NUL.
unfoldable pub draw_text :
    Bitmap → (scale : ℕ) → (cursor_x baseline_y : ℤ) → Bytes → Memory → Memory
draw_text bitmap scale cursor_x baseline_y [] m = m
draw_text bitmap scale cursor_x baseline_y (character ∷ text) m =
    draw_text bitmap scale (cursor_x +ℤ pos (6 * scale)) baseline_y text
      (draw_character bitmap scale cursor_x baseline_y character m)
