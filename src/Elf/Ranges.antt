-- ===== src/Elf/Ranges.antt =====
-- Range checks and page rounding of elf32_loader.c.
pub mod Bounds
pub mod Rounding
use nfsmw_arm_linux.Prelude.{
  ℕ, ◌-◌, Bool, ◌&&◌, Option, none, some, ltb, leb, if◌then◌else◌, bit_and, bit_or, add32, sub32,
  word_max, not, ◌==◌,
}
use nfsmw_arm_linux.Elf.Types.{Image}

-- The operands are `uint64_t`; the subtraction runs only where it cannot wrap.
unfoldable pub range_in_file : ℕ → ℕ → ℕ → Bool
range_in_file offset length file_size = leb offset file_size && leb length (file_size - offset)

unfoldable pub range_in_image : Image → ℕ → ℕ → Bool
range_in_image image address length =
    let start = image.mapping in
    let end = add32 start image.mapping_size in
    leb start end && (leb start address && (leb address end && leb length (end - address)))

-- `~word` on 32 bits.
abbrev pub complement : ℕ → ℕ
complement word = word_max - word

unfoldable pub align_down : ℕ → ℕ → ℕ
align_down value alignment = bit_and value (complement (sub32 alignment 1))

unfoldable pub align_up : ℕ → ℕ → Option ℕ
align_up value alignment =
    let mask = sub32 alignment 1 in
    if ltb (word_max - mask) value
    then none
    else some (bit_and (add32 value mask) (complement mask))

-- PROT bits of PF bits.
unfoldable pub protection : ℕ → ℕ
protection flags =
    let result = if not (bit_and flags 4 == 0) then bit_or 0 1 else 0 in
    let result' = if not (bit_and flags 2 == 0) then bit_or result 2 else result in
    if not (bit_and flags 1 == 0) then bit_or result' 4 else result'
