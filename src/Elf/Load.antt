-- ===== src/Elf/Load.antt =====
-- elf32_map and elf32_unmap of elf32_loader.c.
pub mod Extents
pub mod Confined
pub mod Cleanup
use nfsmw_arm_linux.Prelude.{
  ℕ, ◌+◌, ◌-◌, ◌*◌, ◌/◌, Bool, true, false, ◌||◌, ◌&&◌, not, Option, none, some, List, [], ◌∷◌,
  if◌then◌else◌, ◌==◌, ltb, leb, add32, sub32, word_max, bit_and, bit_or, Result, ok, err, Run,
  ◌>>◌, modify, for_each,
}
use nfsmw_arm_linux.Memory.{Memory, copy_in, zero_fill}
use nfsmw_arm_linux.Elf.Format.{
  Segment, read_segment, segment_size, Header, read_header, header_size, table, entry_size,
  elf_magic, class_32, data_lsb, machine_arm, type_dyn, pt_load, pt_dynamic, prot_read, prot_write,
}
use nfsmw_arm_linux.Elf.Types.{
  Image, null_image, Error, open_failed, stat_failed, too_large, map_input_failed, truncated_header,
  unsupported_header, invalid_program_headers, invalid_page_size, invalid_segment,
  no_loadable_image, reserve_failed, prepare_failed, headers_unavailable, invalid_dynamic_table,
  no_dynamic,
}
use nfsmw_arm_linux.Elf.Ranges.{range_in_file, range_in_image, align_down, align_up}
use nfsmw_arm_linux.Elf.Dynamic.{parse_dynamic}
use nfsmw_arm_linux.Elf.Segments.{Protect, call_mprotect, protect_segments}

-- What the system answers: `open`, `fstat` (the size; `none` if it fails or is not positive), `mmap`
-- of the file and its bytes, `sysconf(_SC_PAGESIZE)` (0 for a failure), and `mmap` of a
-- reservation of a given size.
pub record Host : Type 0 where
  pub openable : Bool
  pub size : Option ℕ
  pub mappable : Bool
  pub content : Memory
  pub page_size : ℕ
  pub reserve : ℕ → Option ℕ
  pub mprotect : List Protect → Protect → Bool

-- The process: its memory and what it holds of the system, and the image being filled in.
pub record Loader : Type 0 where
  pub memory : Memory
  pub protections : List Protect
  pub descriptors : ℕ
  pub file_mappings : ℕ
  pub reservations : List (ℕ × ℕ)
  pub image : Image

unfoldable pub header_supported : Header → Bool
header_supported header =
    header.magic == elf_magic
    && (header.class == class_32
        && (header.encoding == data_lsb
            && (header.machine == machine_arm
                && (header.kind == type_dyn
                    && (header.phentsize == segment_size && not (header.phnum == 0))))))

-- `page_size <= 0 || (page_size & (page_size - 1)) != 0` is refused.
unfoldable pub page_size_valid : ℕ → Bool
page_size_valid page_size = not (page_size == 0) && bit_and page_size (page_size - 1) == 0

-- The bounds that the first loop computes: virtual_minimum and virtual_maximum.
pub record Extent : Type 0 where
  pub minimum : ℕ
  pub maximum : ℕ

abbrev pub no_extent : Extent
no_extent = record { minimum = word_max; maximum = 0 }

unfoldable pub extend : (start end : ℕ) → Extent → Extent
extend start end extent = record {
  minimum = if ltb start extent.minimum then start else extent.minimum;
  maximum = if ltb extent.maximum end then end else extent.maximum;
}

module _ (size page_size : ℕ) where
  -- The end of a PT_LOAD segment, rounded up, if its ranges are sound.
  unfoldable pub segment_end : Segment → Option ℕ
  segment_end segment =
      if ltb segment.memsz segment.filesz
        || (ltb (word_max - segment.vaddr) segment.memsz
            || not (range_in_file segment.offset segment.filesz size))
      then none
      else align_up (add32 segment.vaddr segment.memsz) page_size

  unfoldable pub scan_segment : Segment → Run Error Extent (Unit {0})
  scan_segment segment extent =
      if not (segment.kind == pt_load) then (extent, ok tt) else elim (segment_end segment) [
        | none ↦ (extent, err invalid_segment)
        | some end ↦ (extend (align_down segment.vaddr page_size) end extent, ok tt)
      ]

-- One round of the second loop: make the segment writable and copy its bytes.
unfoldable pub prepare_segment : Host → Segment → Run Error Loader (Unit {0})
prepare_segment host segment l =
    let image = l.image in
    let start = add32 image.load_bias (align_down segment.vaddr image.page_size) in
    let end = add32 (add32 image.load_bias segment.vaddr) segment.memsz in
    if not (segment.kind == pt_load && not (segment.memsz == 0))
    then (l, ok tt)
    else elim (align_up end image.page_size) [
      | none ↦ (l, err prepare_failed)
      | some end' ↦
          let (log, prepared) =
            call_mprotect host.mprotect start (sub32 end' start) (bit_or prot_read prot_write)
              prepare_failed l.protections in
          elim prepared [
            | err e ↦ (record l { protections = log }, err e)
            | ok _ ↦ (
              record l {
                protections = log;
                memory =
                    if segment.filesz == 0
                    then l.memory
                    else copy_in l.memory (add32 image.load_bias segment.vaddr) host.content
                        segment.offset segment.filesz;
              },
              ok tt,
            )
          ]
    ]

-- The loop that looks for PT_DYNAMIC: the first one decides.
unfoldable pub find_dynamic : Image → List Segment → Result Error Image
find_dynamic image [] = ok image
find_dynamic image (segment ∷ segments) = elim (segment.kind == pt_dynamic) [
  | false ↦ find_dynamic image segments
  | true ↦
      let address = add32 image.load_bias segment.vaddr in
      if ltb segment.memsz entry_size || not (range_in_image image address segment.memsz)
      then err invalid_dynamic_table
      else ok (record image { dynamic = address; dynamic_count = segment.memsz / entry_size })
]

-- The test after the first loop.
unfoldable pub check_extent : Extent × Result Error (Unit {0}) → Result Error Extent
check_extent (extent, err e) = err e
check_extent (extent, ok _) =
    if extent.minimum == word_max || leb extent.maximum extent.minimum
    then err no_loadable_image
    else ok extent

-- The extent that the first loop leaves.
unfoldable pub scan_segments : Host → Header → (size : ℕ) → Result Error Extent
scan_segments host header size = check_extent (
    for_each (table read_segment segment_size host.content header.phoff header.phnum)
      (scan_segment size host.page_size) no_extent)

-- The anonymous mapping that the image will fill.
unfoldable pub reserve_image : Host → Extent → Run Error Loader (Unit {0})
reserve_image host extent l =
    let size = extent.maximum - extent.minimum in
    let sized = record l.image { mapping_size = size } in
    elim (host.reserve size) [
      | none ↦ (record l { image = record sized { mapping = 0 } }, err reserve_failed)
      | some mapping ↦ (
        record l {
          memory = zero_fill l.memory mapping size;
          reservations = (mapping, size) ∷ l.reservations;
          image = record sized {
            mapping = mapping;
            virtual_base = extent.minimum;
            load_bias = sub32 mapping extent.minimum;
          };
        },
        ok tt,
      )
    ]

-- The image with its program headers, and the segments that these describe.
abbrev pub headed : Header → Image → Image
headed header image = record image {
  program_headers = add32 image.load_bias header.phoff;
  program_header_count = header.phnum;
}

abbrev pub image_segments : Header → Loader → List Segment
image_segments header l =
    table read_segment segment_size l.memory (add32 l.image.load_bias header.phoff) header.phnum

-- The second half: headers, PT_DYNAMIC, strings and final protections, all read in the image.
unfoldable pub finish_image : Host → Header → Run Error Loader (Unit {0})
finish_image host header l =
    if not
      (range_in_image l.image (add32 l.image.load_bias header.phoff) (header.phnum * segment_size))
    then (l, err headers_unavailable)
    else elim (find_dynamic (headed header l.image) (image_segments header l)) [
      | err e ↦ (record l { image = headed header l.image }, err e)
      | ok image ↦
          if image.dynamic == 0
          then (record l { image = image }, err no_dynamic)
          else elim (parse_dynamic image l.memory) [
            | err e ↦ (record l { image = image }, err e)
            | ok image' ↦
                let (log, result) = protect_segments host.mprotect image' l.memory l.protections in
                (record l { protections = log; image = image' }, result)
          ]
    ]

-- The checks of the file that come before anything is reserved.
unfoldable pub check_file : Host → ℕ → Header → Result Error Extent
check_file host size header =
    if ltb size header_size
    then err truncated_header
    else if not (header_supported header)
    then err unsupported_header
    else if not (range_in_file header.phoff (header.phnum * segment_size) size)
    then err invalid_program_headers
    else if not (page_size_valid host.page_size)
    then err invalid_page_size
    else scan_segments host header size

-- Reserve the image, copy the segments and finish it.
unfoldable pub load_image : Host → Header → Extent → Run Error Loader (Unit {0})
load_image host header extent = do
  modify (λ l. record l { image = record l.image { page_size = host.page_size } })
  reserve_image host extent
  for_each (table read_segment segment_size host.content header.phoff header.phnum)
      (prepare_segment host)
  finish_image host header

unfoldable pub map_file : Host → ℕ → Run Error Loader (Unit {0})
map_file host size l =
    let header = read_header host.content 0 in
    elim (check_file host size header) [
      | err e ↦ (l, err e)
      | ok extent ↦ load_image host header extent l
    ]

-- `munmap`: the reservation at that address and of that size is given back.
unfoldable pub release : ℕ → ℕ → List (ℕ × ℕ) → List (ℕ × ℕ)
release start size [] = []
release start size ((start', size') ∷ rest) =
    if start == start' && size == size' then rest else (start', size') ∷ release start size rest

unfoldable pub elf32_unmap : Loader → Loader
elf32_unmap l = record l {
  reservations =
      if not (l.image.mapping == 0) && not (l.image.mapping_size == 0)
      then release l.image.mapping l.image.mapping_size l.reservations
      else l.reservations;
  image = null_image;
}

abbrev pub undo : (file_mapped descriptor_open : Bool) → Loader → Loader
undo file_mapped descriptor_open l = record l {
  file_mappings = if file_mapped then l.file_mappings - 1 else l.file_mappings;
  descriptors = if descriptor_open then l.descriptors - 1 else l.descriptors;
}

-- The label `done`: what was taken is given back, and a failure clears the image.
unfoldable pub done :
    (file_mapped descriptor_open : Bool)
    → Loader × Result Error (Unit {0})
    → Loader × Result Error (Unit {0})
done file_mapped descriptor_open (l, result) =
    let l' = undo file_mapped descriptor_open l in
    (elim result [ ok _ ↦ l' | err _ ↦ elf32_unmap l' ], result)

-- The state with the image cleared but for its path, and then with the file open and mapped.
abbrev pub cleared : ℕ → Loader → Loader
cleared path l = record l { image = record null_image { path = path } }

abbrev pub opened : ℕ → Loader → Loader
opened path l = record (cleared path l) { descriptors = l.descriptors + 1 }

abbrev pub mapped : ℕ → Loader → Loader
mapped path l = record (opened path l) { file_mappings = l.file_mappings + 1 }

-- `elf32_map(image, path, …)`, with the address of the path.
unfoldable pub elf32_map : Host → ℕ → Run Error Loader (Unit {0})
elf32_map host path l =
    if not host.openable
    then done false false (cleared path l, err open_failed)
    else elim host.size [
      | none ↦ done false true (opened path l, err stat_failed)
      | some size ↦
          if ltb word_max size
          then done false true (opened path l, err too_large)
          else if not host.mappable
          then done false true (opened path l, err map_input_failed)
          else done true true (map_file host size (mapped path l))
    ]
