-- ===== src/Elf/Load/Confined.antt =====
-- elf32_map writes only inside the range that it has reserved.
use nfsmw_arm_linux.Prelude.{
  ℕ, ◌+◌, ◌-◌, ◌<◌, ◌≡◌, refl, ap, ◌∙◌, inl, inr, true, some, arith, Option-cases, ok, Result-cases,
  Keeps, for_each, for_each-Keeps_of, bind-Keeps-then, ◌>>◌, All, add32, sub32,
}
use nfsmw_arm_linux.Memory.{Memory, IsBytes, Outside, copy_in, copy_in-Outside, zero_fill-Outside}
use nfsmw_arm_linux.Elf.Format.{Segment, Header, read_header, pt_load}
use nfsmw_arm_linux.Elf.Load.{
  Host, Extent, Loader, prepare_segment, reserve_image, finish_image, load_image, map_file,
  check_file, mapped, done, elf32_map, elf32_unmap, page_size_valid,
}
use nfsmw_arm_linux.Elf.Load.Extents.{
  Inside, Covers, IsExtent, file_segments, scan_segments-IsExtent, page_size_valid-IsPage,
}

-- `mmap` places a reservation away from NULL and below the top of the address space.
abbrev pub ReservesFit : Host → Type 0
ReservesFit host =
    (size start : ℕ) → host.reserve size ≡ some start → (0 < start) × (start + size < 4294967296)

-- The file's bytes are bytes and the page size is a word.
pub record IsHost (host : Host) : Type 0 where
  pub bytes : IsBytes host.content
  pub page_word : host.page_size < 4294967296
  pub reserves : ReservesFit host

-- An address that no reservation covers.
abbrev pub Unreserved : Host → ℕ → Type 0
Unreserved host x = (size start : ℕ) → host.reserve size ≡ some start → Outside start size x

abbrev MemoryAt : ℕ → ℕ → Loader → Type 0
MemoryAt x v l = l.memory x ≡ v

finish_image-memory :
    (host : Host) (header : Header) (l : Loader) → (finish_image host header l).0.memory ≡ l.memory
unfolding finish_image
finish_image-memory host header l = ground arith

-- The image as reserve_image leaves it.
record Placed (extent : Extent) (start x v : ℕ) (l : Loader) : Type 0 where
  kept : l.memory x ≡ v
  bias : l.image.load_bias ≡ sub32 start extent.minimum

-- The copied bytes stand in the reservation.
copy-Outside :
    (host : Host) (extent : Extent) (start x bias : ℕ) (s : Segment) (m : Memory)
    → extent.maximum < 4294967296
    → start + (extent.maximum - extent.minimum) < 4294967296
    → Outside start (extent.maximum - extent.minimum) x
    → Inside extent s
    → bias ≡ sub32 start extent.minimum
    → copy_in m (add32 bias s.vaddr) host.content s.offset s.filesz x ≡ m x
copy-Outside host extent start x bias s m word fit out i e =
    copy_in-Outside m (add32 bias s.vaddr) host.content s.offset s.filesz x (apart out)
  where
    place : add32 bias s.vaddr ≡ start + (s.vaddr - extent.minimum)
    place = omega (arith, i.low, i.high)

    apart :
        Outside start (extent.maximum - extent.minimum) x → Outside (add32 bias s.vaddr) s.filesz x
    apart (inl h) = inl (omega (arith, place))
    apart (inr h) = inr (omega (arith, place, i.low, i.high, i.short))

module _ (host : Host) (extent : Extent) (start x v : ℕ) (word : extent.maximum < 4294967296)
    (fit : start + (extent.maximum - extent.minimum) < 4294967296)
    (out : Outside start (extent.maximum - extent.minimum) x) where
  prepare_segment-Placed :
      (s : Segment) → Covers extent s → Keeps (Placed extent start x v) (prepare_segment host s)
  unfolding prepare_segment
  prepare_segment-Placed s covers l p = record {
    kept = ground (arith, copied);
    bias = ground (arith, p.bias);
  }
    where
      copied :
          s.kind ≡ pt_load
          → copy_in l.memory (add32 l.image.load_bias s.vaddr) host.content s.offset s.filesz x ≡ v
      copied load =
          copy-Outside host extent start x l.image.load_bias s l.memory word fit out (covers load)
            p.bias
          ∙ p.kept

  -- From the reserved image on.
  load_rest-memory :
      (header : Header)
      → All (Covers extent) (file_segments host header)
      → (l : Loader) → Placed extent start x v l
      → ((for_each (file_segments host header) (prepare_segment host) >> finish_image host header)
            l).0.memory
          x
        ≡ v
  load_rest-memory header covers =
      bind-Keeps-then (Placed extent start x v) (MemoryAt x v)
        (for_each (file_segments host header) (prepare_segment host))
        (λ _. finish_image host header)
        (for_each-Keeps_of (Placed extent start x v) (Covers extent) (file_segments host header)
          (prepare_segment host) covers prepare_segment-Placed)
        (λ s p. p.kept) (λ a s p. ap (λ m. m x) (finish_image-memory host header s) ∙ p.kept)

load_image-memory :
    (host : Host) (header : Header) (extent : Extent) (x : ℕ) (l : Loader)
    → IsHost host
    → IsExtent host header extent
    → Unreserved host x
    → (load_image host header extent l).0.memory x ≡ l.memory x
unfolding load_image reserve_image
load_image-memory host header extent x l is ext un =
    elim (Option-cases (host.reserve (extent.maximum - extent.minimum))) [
      | inl e ↦ ground (arith, e)
      | inr (start, e) ↦
          rw (e, load_image, reserve_image)
            (load_rest-memory host extent start x (l.memory x) ext.word (is.reserves _ start e).1
              (un _ start e) header ext.covers _
              (record { kept = zero_fill-Outside l.memory start _ x (un _ start e); bias = refl }))
    ]

check_file-IsExtent :
    (host : Host) (size : ℕ) (header : Header) {extent : Extent}
    → IsHost host
    → check_file host size header ≡ ok extent
    → IsExtent host header extent
unfolding check_file
check_file-IsExtent host size header is e =
    let valid : page_size_valid host.page_size ≡ true = ground arith in
    scan_segments-IsExtent host header size is.bytes
      (page_size_valid-IsPage host.page_size is.page_word valid) (ground arith)

map_file-memory :
    (host : Host) (size x : ℕ) (l : Loader)
    → IsHost host
    → Unreserved host x
    → (map_file host size l).0.memory x ≡ l.memory x
unfolding map_file
map_file-memory host size x l is un =
    elim (Result-cases (check_file host size (read_header host.content 0))) [
      | inr (failure, e) ↦ rw (e, map_file)
      | inl (extent, e) ↦
          rw (e, map_file)
            (load_image-memory host (read_header host.content 0) extent x l is
              (check_file-IsExtent host size (read_header host.content 0) is e) un)
    ]

-- elf32_map changes no byte outside the range that it reserves, whether it succeeds or fails, for any
-- file, if the file's contents are bytes, the page size is a 32-bit word and reservations lie between
-- NULL and the top of the address space.
pub elf32_map-memory :
    (host : Host) (path x : ℕ) (l : Loader)
    → IsHost host
    → Unreserved host x
    → (elf32_map host path l).0.memory x ≡ l.memory x
unfolding elf32_map done elf32_unmap
elf32_map-memory host path x l is un = elim (Option-cases host.size) [
  | inl e ↦ ground (arith, e)
  | inr (size, e) ↦ ground (arith, e, map_file-memory host size x (mapped path l) is un)
]
