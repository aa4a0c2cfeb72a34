-- ===== src/Elf/Ranges/Bounds.antt =====
-- range_in_file and range_in_image accept exactly the ranges that lie inside.
use nfsmw_arm_linux.Prelude.{ℕ, ◌+◌, ◌≤◌, ◌<◌, ◌≡◌, ◌↔◌, true, arith}
use nfsmw_arm_linux.Elf.Types.{Image}
use nfsmw_arm_linux.Elf.Ranges.{range_in_file, range_in_image}

-- range_in_file accepts an offset and a length exactly if their sum, unbounded, is at most the
-- size of the file.
pub range_in_file-true_iff :
    (offset length file_size : ℕ)
    → (range_in_file offset length file_size ≡ true) ↔ (offset + length ≤ file_size)
unfolding range_in_file
range_in_file-true_iff offset length file_size = ground arith

-- The mapping's bounds are 32-bit words.
pub record IsWide (image : Image) : Type 0 where
  pub mapping_word : image.mapping < 4294967296
  pub size_word : image.mapping_size < 4294967296

-- A range that lies in a mapping which ends below the top of the address space.
pub record InImage (image : Image) (address length : ℕ) : Type 0 where
  pub no_wrap : image.mapping + image.mapping_size < 4294967296
  pub from_start : image.mapping ≤ address
  pub to_end : address + length ≤ image.mapping + image.mapping_size

pub range_in_image-InImage :
    (image : Image) (address length : ℕ)
    → IsWide image
    → range_in_image image address length ≡ true
    → InImage image address length
unfolding range_in_image
range_in_image-InImage image address length w h = record {
  no_wrap = ground arith;
  from_start = ground arith;
  to_end = ground arith;
}

InImage-range_in_image :
    (image : Image) (address length : ℕ)
    → InImage image address length
    → range_in_image image address length ≡ true
unfolding range_in_image
InImage-range_in_image image address length i = ground arith

-- For a mapping whose start and size are 32-bit words, range_in_image accepts a range exactly if the
-- mapping ends below 2^32 and the range, taken without wrap-around, lies inside the mapping.
pub range_in_image-true_iff :
    (image : Image) (address length : ℕ)
    → IsWide image
    → (range_in_image image address length ≡ true) ↔ InImage image address length
range_in_image-true_iff image address length w =
    (range_in_image-InImage image address length w, InImage-range_in_image image address length)
