-- ===== src/Font/Tests.antt =====
-- A letter on a small bitmap.
use nfsmw_arm_linux.Prelude.{◌≡◌, refl, inl, arith, codes}
use nfsmw_arm_linux.Prelude.Int.{pos, sub_ℕ, ◌+ℤ◌}
use nfsmw_arm_linux.Elf.Format.{indices}
use nfsmw_arm_linux.Memory.{Memory, write32}
use nfsmw_arm_linux.Font.{
  new_bitmap_graphics, valid_dimensions, draw_text, draw_character, draw_column, glyph_row, capital,
  paint_square, paint_pixel, clipped, for_all,
}
use nfsmw_arm_linux.Font.Canvas.{draw_text-Outside}

abbrev blank : Memory
blank a = 0

-- The first row of the letter is dark at its first pixel and lit at its second.
drawn :
    (draw_text (new_bitmap_graphics 1000 (pos 8) (pos 7)) 1 (pos 0) (pos 7) (codes "a") blank 1000
      ≡ 0)
    × (draw_text (new_bitmap_graphics 1000 (pos 8) (pos 7)) 1 (pos 0) (pos 7) (codes "a") blank 1004
        ≡ 255)
unfolding new_bitmap_graphics valid_dimensions draw_text draw_character draw_column glyph_row
    capital paint_square paint_pixel clipped for_all write32 indices ◌+ℤ◌
drawn = (refl, refl)

draw_text-Outside_example :
    draw_text
      (new_bitmap_graphics 1000 (pos 8) (pos 7))
      4
      (sub_ℕ 0 3)
      (pos 40)
      (codes "go")
      blank
      996
    ≡ 0
draw_text-Outside_example =
    draw_text-Outside 1000 (pos 8) (pos 7) 4 (sub_ℕ 0 3) (pos 40) (codes "go") blank 996
      (inl (omega arith))
