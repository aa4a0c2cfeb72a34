-- ===== src/Elf/Segments.antt =====
-- protect_segments and set_segments_writable of elf32_loader.c.
-- `mprotect` is the system's: given the calls made before, newest first, it accepts or refuses one.
use nfsmw_arm_linux.Prelude.{
  ℕ, Bool, ◌||◌, not, none, some, List, ◌∷◌, if◌then◌else◌, ◌==◌, add32, sub32, Run, ok, err, pure,
  throw, for_each, bit_or,
}
use nfsmw_arm_linux.Memory.{Memory}
use nfsmw_arm_linux.Elf.Format.{
  Segment, segment_size, read_segment, table, pt_load, prot_read, prot_write,
}
use nfsmw_arm_linux.Elf.Types.{
  Image, Error, protection_overflow, protect_failed, writable_overflow, make_writable_failed,
}
use nfsmw_arm_linux.Elf.Ranges.{align_down, align_up, protection}

-- One call of `mprotect`.
pub record Protect : Type 0 where
  pub start : ℕ
  pub size : ℕ
  pub mode : ℕ

module _ (mprotect : List Protect → Protect → Bool) where
  unfoldable pub call_mprotect : (start size mode : ℕ) → Error → Run Error (List Protect) (Unit {0})
  call_mprotect start size mode failure log =
      let call : Protect = record { start = start; size = size; mode = mode } in
      if mprotect log call then (call ∷ log, ok tt) else (call ∷ log, err failure)

  unfoldable pub protect_segment : Image → Segment → Run Error (List Protect) (Unit {0})
  protect_segment image segment =
      let start = align_down (add32 image.load_bias segment.vaddr) image.page_size in
      let end = add32 (add32 image.load_bias segment.vaddr) segment.memsz in
      if not (segment.kind == pt_load) || segment.memsz == 0
      then pure tt
      else elim (align_up end image.page_size) [
        | none ↦ throw protection_overflow
        | some end' ↦
            call_mprotect start (sub32 end' start) (protection segment.flags) protect_failed
      ]

  unfoldable pub protect_segments : Image → Memory → Run Error (List Protect) (Unit {0})
  protect_segments image m =
      for_each (table read_segment segment_size m image.program_headers image.program_header_count)
        (protect_segment image)

  unfoldable pub set_segment_writable : Image → Segment → Run Error (List Protect) (Unit {0})
  set_segment_writable image segment =
      let start = align_down (add32 image.load_bias segment.vaddr) image.page_size in
      let end = add32 (add32 image.load_bias segment.vaddr) segment.memsz in
      if not (segment.kind == pt_load) || segment.memsz == 0
      then pure tt
      else elim (align_up end image.page_size) [
        | none ↦ throw writable_overflow
        | some end' ↦
            call_mprotect start (sub32 end' start) (bit_or prot_read prot_write)
              make_writable_failed
      ]

  unfoldable pub set_segments_writable : Image → Memory → Run Error (List Protect) (Unit {0})
  set_segments_writable image m =
      for_each (table read_segment segment_size m image.program_headers image.program_header_count)
        (set_segment_writable image)
