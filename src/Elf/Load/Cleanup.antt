-- ===== src/Elf/Load/Cleanup.antt =====
-- What elf32_map holds of the system when it returns.
use nfsmw_arm_linux.Prelude.{
  ℕ, ◌-◌, ◌<◌, ◌≡◌, refl, sym, subst, inl, inr, ◌⊎◌, true, false, some, List, [], ◌∷◌, arith,
  Option-cases, Bool-cases, Result, ok, err, Result-cases, Keeps, for_each, for_each-Keeps,
  bind-Keeps, ◌>>◌, ◌==◌, ltb, word_max,
}
use nfsmw_arm_linux.Elf.Format.{Segment, Header, read_header, pt_dynamic}
use nfsmw_arm_linux.Elf.Types.{
  Image, null_image, Error, open_failed, stat_failed, too_large, map_input_failed, reserve_failed,
}
use nfsmw_arm_linux.Elf.Dynamic.{
  parse_dynamic, check_strings, scan_strings, dynamic_entries, first_scan, StringScan,
}
use nfsmw_arm_linux.Memory.{Memory}
use nfsmw_arm_linux.Elf.Segments.{Protect, protect_segments}
use nfsmw_arm_linux.Elf.Load.{
  Host, Extent, no_extent, scan_segment, Loader, prepare_segment, reserve_image, finish_image,
  load_image, map_file, check_file, headed, image_segments, find_dynamic, cleared, opened, mapped,
  release, done, elf32_map, elf32_unmap, scan_segments,
}
use nfsmw_arm_linux.Elf.Load.Extents.{file_segments, check_extent-ok}
use nfsmw_arm_linux.Elf.Load.Confined.{ReservesFit}

-- What is held beyond the state before: on success the image's reservation, on failure nothing, with
-- the image cleared.
abbrev pub Settled : Loader → Loader × Result Error (Unit {0}) → Type 0
Settled l (l', ok _) =
    (l'.descriptors ≡ l.descriptors)
    × (l'.file_mappings ≡ l.file_mappings)
    × (l'.reservations ≡ (l'.image.mapping, l'.image.mapping_size) ∷ l.reservations)
    × (0 < l'.image.mapping)
Settled l (l', err _) =
    (l'.descriptors ≡ l.descriptors)
    × (l'.file_mappings ≡ l.file_mappings)
    × (l'.reservations ≡ l.reservations)
    × (l'.image ≡ null_image)

-- The state once the image is reserved.
record Holding (l l' : Loader) : Type 0 where
  descriptors_kept : l'.descriptors ≡ l.descriptors
  file_mappings_kept : l'.file_mappings ≡ l.file_mappings
  holds : l'.reservations ≡ (l'.image.mapping, l'.image.mapping_size) ∷ l.reservations
  mapping_pos : 0 < l'.image.mapping
  size_pos : 0 < l'.image.mapping_size

-- The state before that.
record Bare (l l' : Loader) : Type 0 where
  descriptors_kept : l'.descriptors ≡ l.descriptors
  file_mappings_kept : l'.file_mappings ≡ l.file_mappings
  holds : l'.reservations ≡ l.reservations
  mapping_zero : l'.image.mapping ≡ 0

prepare_segment-Holding :
    (host : Host) (l : Loader) (s : Segment) → Keeps (Holding l) (prepare_segment host s)
unfolding prepare_segment
prepare_segment-Holding host l s l' h = ground arith

record SamePlace (image image' : Image) : Type 0 where
  mapping_kept : image'.mapping ≡ image.mapping
  size_kept : image'.mapping_size ≡ image.mapping_size

find_dynamic-SamePlace :
    (image : Image) (ss : List Segment) {image' : Image}
    → find_dynamic image ss ≡ ok image'
    → SamePlace image image'
unfolding find_dynamic
find_dynamic-SamePlace image [] e = ground arith
find_dynamic-SamePlace image (s ∷ ss) e = elim (Bool-cases (s.kind == pt_dynamic)) [
  | inl hit ↦ ground arith
  | inr miss ↦ find_dynamic-SamePlace image ss (ground arith)
]

check_strings-SamePlace :
    (image : Image) (scan : StringScan) {image' : Image}
    → check_strings image scan ≡ ok image'
    → SamePlace image image'
unfolding check_strings
check_strings-SamePlace image scan e = ground arith

parse_dynamic-SamePlace :
    (image : Image) (m : Memory) {image' : Image}
    → parse_dynamic image m ≡ ok image'
    → SamePlace image image'
unfolding parse_dynamic
parse_dynamic-SamePlace image m e =
    elim (Result-cases (scan_strings image (dynamic_entries image m) (first_scan image))) [
      | inl (scan, e') ↦ check_strings-SamePlace image scan (ground (arith, e'))
      | inr (failure, e') ↦ absurd (ground (arith, e'))
    ]

Holding-image :
    (l l' : Loader) (image : Image) (log : List Protect)
    → Holding l l'
    → SamePlace l'.image image
    → Holding l (record l' { protections = log; image = image })
Holding-image l l' image log h s = ground arith

finish_image-Holding :
    (host : Host) (header : Header) (l : Loader) → Keeps (Holding l) (finish_image host header)
unfolding finish_image
finish_image-Holding host header l l' h =
    elim (Result-cases (find_dynamic (headed header l'.image) (image_segments header l'))) [
      | inr (failure, e) ↦ ground (arith, e)
      | inl (image, e) ↦
          let placed =
            find_dynamic-SamePlace (headed header l'.image) (image_segments header l') e in
          let same : SamePlace l'.image image = ground arith in
          elim (Result-cases (parse_dynamic image l'.memory)) [
            | inr (failure, f) ↦
                ground (arith, e, f, Holding-image l l' image l'.protections h same)
            | inl (image', f) ↦
                let kept = parse_dynamic-SamePlace image l'.memory f in
                let (log, result) =
                  protect_segments host.mprotect image' l'.memory l'.protections in
                ground (
                  arith,
                  e,
                  f,
                  Holding-image l l' image l'.protections h same,
                  Holding-image l l' image' log h (ground arith),
                )
          ]
    ]

-- What the mapping of the file leaves: a reservation, or a failure before it.
abbrev Mapped : Loader → Loader × Result Error (Unit {0}) → Type 0
Mapped l r = Holding l r.0 ⊎ (Bare l r.0 × ((e : Error) × (r.1 ≡ err e)))

load_rest-Holding :
    (host : Host) (header : Header) (l : Loader)
    → Keeps
        (Holding l)
        (for_each (file_segments host header) (prepare_segment host) >> finish_image host header)
load_rest-Holding host header l =
    bind-Keeps (Holding l) (for_each (file_segments host header) (prepare_segment host))
      (λ _. finish_image host header)
      (for_each-Keeps (Holding l) (file_segments host header) (prepare_segment host)
        (prepare_segment-Holding host l))
      (λ _. finish_image-Holding host header l)

load_image-Mapped :
    (host : Host) (header : Header) (extent : Extent) (l : Loader)
    → ReservesFit host
    → extent.minimum < extent.maximum
    → l.image.mapping ≡ 0
    → Mapped l (load_image host header extent l)
unfolding load_image reserve_image
load_image-Mapped host header extent l fit ne zero =
    elim (Option-cases (host.reserve (extent.maximum - extent.minimum))) [
      | inl e ↦ inr (ground (arith, e), (reserve_failed, ground (arith, e)))
      | inr (start, e) ↦
          rw (e, load_image, reserve_image)
            (inl (
              load_rest-Holding host header l _ (record {
                descriptors_kept = refl;
                file_mappings_kept = refl;
                holds = refl;
                mapping_pos = (fit _ start e).0;
                size_pos = omega arith;
              })))
    ]

check_file-nonempty :
    (host : Host) (size : ℕ) (header : Header) {extent : Extent}
    → check_file host size header ≡ ok extent
    → extent.minimum < extent.maximum
unfolding check_file scan_segments
check_file-nonempty host size header e =
    (check_extent-ok
      (for_each (file_segments host header) (scan_segment size host.page_size) no_extent)
      (ground arith)).1

map_file-Mapped :
    (host : Host) (size : ℕ) (l : Loader)
    → ReservesFit host
    → l.image.mapping ≡ 0
    → Mapped l (map_file host size l)
unfolding map_file
map_file-Mapped host size l fit zero =
    elim (Result-cases (check_file host size (read_header host.content 0))) [
      | inr (failure, e) ↦ inr (ground (arith, e), (failure, ground (arith, e)))
      | inl (extent, e) ↦
          rw (e, map_file)
            (load_image-Mapped host (read_header host.content 0) extent l fit
              (check_file-nonempty host size (read_header host.content 0) e) zero)
    ]

release_head :
    (start size : ℕ) (rest : List (ℕ × ℕ)) → release start size ((start, size) ∷ rest) ≡ rest
unfolding release
release_head start size rest = ground arith

done-Settled :
    (path : ℕ) (l : Loader) (r : Loader × Result Error (Unit {0}))
    → Mapped (mapped path l) r
    → Settled l (done true true r)
unfolding done elf32_unmap
done-Settled path l (l', ok _) (inl h) = ground arith
done-Settled path l (l', ok _) (inr (b, (e, is))) = absurd (cc is)
done-Settled path l (l', err e) (inl h) =
    ground (arith, release_head l'.image.mapping l'.image.mapping_size l.reservations)
done-Settled path l (l', err e) (inr (b, _)) = ground arith

module _ (host : Host) (path : ℕ) (l : Loader) (fit : ReservesFit host) where
  by_path :
      (r : Loader × Result Error (Unit {0}))
      → elf32_map host path l ≡ r
      → Settled l r
      → Settled l (elf32_map host path l)
  by_path r e s = subst (Settled l) (sym e) s

  early-Settled : (e : Error) → Settled l (done false true (opened path l, err e))
  unfolding done elf32_unmap
  early-Settled e = (omega arith, refl, refl, refl)

  closed-Settled : Settled l (done false false (cleared path l, err open_failed))
  unfolding done elf32_unmap
  closed-Settled = (refl, refl, refl, refl)

  sized-Settled :
      (size : ℕ) → host.openable ≡ true → host.size ≡ some size → Settled l (elf32_map host path l)
  unfolding elf32_map
  sized-Settled size o e = elim (Bool-cases (ltb word_max size)) [
    | inl large ↦
        by_path (done false true (opened path l, err too_large)) (rw (o, e, large))
          (early-Settled too_large)
    | inr fits ↦ elim (Bool-cases host.mappable) [
      | inr unmapped ↦
          by_path (done false true (opened path l, err map_input_failed))
            (rw (o, e, fits, unmapped)) (early-Settled map_input_failed)
      | inl is ↦
          by_path (done true true (map_file host size (mapped path l)))
            (ground (arith, o, e, fits, is))
            (done-Settled path l _ (map_file-Mapped host size (mapped path l) fit refl))
    ]
  ]

  -- Whatever elf32_map returns, the file is closed and unmapped again. On success the process holds
  -- one more reservation, which is the image's mapping and is not NULL. On failure it holds what it
  -- held before, and the image is cleared. Reservations are assumed to lie between NULL and the top
  -- of the address space.
  pub elf32_map-Settled : Settled l (elf32_map host path l)
  unfolding elf32_map
  elf32_map-Settled = elim (Bool-cases host.openable) [
    | inr closed ↦
        by_path (done false false (cleared path l, err open_failed)) (rw closed) closed-Settled
    | inl o ↦ elim (Option-cases host.size) [
      | inl e ↦
          by_path (done false true (opened path l, err stat_failed)) (rw (o, e))
            (early-Settled stat_failed)
      | inr (size, e) ↦ sized-Settled size o e
    ]
  ]
