-- ===== src/Elf/Load/Extents.antt =====
-- What the first loop of elf32_map establishes of every PT_LOAD segment.
use nfsmw_arm_linux.Prelude.{
  ℕ, ◌+◌, ◌*◌, ◌^◌, ◌≤◌, ◌<◌, ◌≡◌, inl, inr, true, false, none, some, List, [], ◌∷◌, map, subst, ap,
  sym, ◌∙◌, ◌≢◌, arith, All, ◌==◌, Bool-cases, Option-cases, add32, Result, ok, err, for_each,
  >>=-eq-ok,
}
use nfsmw_arm_linux.Prelude.Bits.{power_of_two, two-pow_le}
use native.Mathlib.Decide.{dec_lt}
use nfsmw_arm_linux.Memory.{Memory, IsBytes, read32-lt}
use nfsmw_arm_linux.Elf.Format.{
  Segment, read_segment, segment_size, table, indices, pt_load, Header,
}
use nfsmw_arm_linux.Elf.Types.{Error}
use nfsmw_arm_linux.Elf.Ranges.{align_down, align_up}
use nfsmw_arm_linux.Elf.Ranges.Rounding.{align_up-RoundsUp, align_down_bounds}
use nfsmw_arm_linux.Elf.Load.{
  Host, Extent, no_extent, extend, segment_end, scan_segment, check_extent, scan_segments,
  page_size_valid,
}

-- The size of a page is a power of two.
pub record IsPage (page_size : ℕ) : Type 0 where
  pub exponent : ℕ
  pub small : exponent ≤ 32
  pub power : page_size ≡ 2 ^ exponent

-- The fields that are added up are 32-bit words.
pub record IsWord (segment : Segment) : Type 0 where
  pub vaddr_word : segment.vaddr < 4294967296
  pub memsz_word : segment.memsz < 4294967296

-- A segment's rounded memory range lies between the bounds.
pub record Inside (extent : Extent) (segment : Segment) : Type 0 where
  pub low : extent.minimum ≤ segment.vaddr
  pub high : segment.vaddr + segment.memsz ≤ extent.maximum
  pub short : segment.filesz ≤ segment.memsz

abbrev pub Covers : Extent → Segment → Type 0
Covers extent segment = (segment.kind ≡ pt_load) → Inside extent segment

pub record Grows (before after : Extent) : Type 0 where
  pub minimum_falls : after.minimum ≤ before.minimum
  pub maximum_rises : before.maximum ≤ after.maximum

extend-Grows : (start end : ℕ) (before : Extent) → Grows before (extend start end before)
unfolding extend
extend-Grows start end before = ground arith

extend-word :
    (start end : ℕ) (before : Extent)
    → end < 4294967296
    → before.maximum < 4294967296
    → (extend start end before).maximum < 4294967296
unfolding extend
extend-word start end before h k = ground arith

Inside-mono :
    (s : Segment) {before after : Extent} → Grows before after → Inside before s → Inside after s
Inside-mono s g i = omega arith

module _ (size page_size : ℕ) (page : IsPage page_size) where
  segment_end_bounds :
      (s : Segment) {end : ℕ}
      → IsWord s
      → segment_end size page_size s ≡ some end
      → (s.vaddr + s.memsz ≤ end) × (end < 4294967296) × (s.filesz ≤ s.memsz)
  unfolding segment_end
  segment_end_bounds s {end} w e =
      let up : align_up (add32 s.vaddr s.memsz) page_size ≡ some end = ground arith in
      let fits : s.vaddr + s.memsz < 4294967296 = ground arith in
      let r =
        align_up-RoundsUp (add32 s.vaddr s.memsz) page.exponent end page.small (omega arith)
          (subst (λ q. align_up (add32 s.vaddr s.memsz) q ≡ some end) page.power up) in
      (omega (arith, r.at_least), omega (arith, r.word), ground arith)

  scan_segment-skip :
      (s : Segment) (before : Extent)
      → (s.kind == pt_load) ≡ false
      → scan_segment size page_size s before ≡ (before, ok tt)
  unfolding scan_segment
  scan_segment-skip s before e = rw e

  scan_segment-take :
      (s : Segment) (before : Extent) {end : ℕ}
      → (s.kind == pt_load) ≡ true
      → segment_end size page_size s ≡ some end
      → scan_segment size page_size s before
        ≡ (extend (align_down s.vaddr page_size) end before, ok tt)
  unfolding scan_segment
  scan_segment-take s before e f = rw (e, f)

  scan_segment-fail :
      (s : Segment) (before after : Extent)
      → (s.kind == pt_load) ≡ true
      → segment_end size page_size s ≡ none
      → scan_segment size page_size s before ≢ (after, ok tt)
  unfolding scan_segment
  scan_segment-fail s before after e f h = ground (arith, e, f)

  align_down-le : (v : ℕ) → v < 4294967296 → align_down v page_size ≤ v
  align_down-le v h = rw page.power (align_down_bounds v page.exponent page.small (omega arith)).0

  extend-Inside :
      (s : Segment) (before : Extent) {end : ℕ}
      → IsWord s
      → segment_end size page_size s ≡ some end
      → Inside (extend (align_down s.vaddr page_size) end before) s
  unfolding extend
  extend-Inside s before w e =
      let bounds = segment_end_bounds s w e in
      let down = align_down-le s.vaddr w.vaddr_word in ground arith

  -- What one round establishes, if it succeeds.
  record Scanned (s : Segment) (before after : Extent) : Type 0 where
    covers : Covers after s
    grows : Grows before after
    word : before.maximum < 4294967296 → after.maximum < 4294967296

  scan_segment-Scanned :
      (s : Segment) (before after : Extent)
      → IsWord s
      → scan_segment size page_size s before ≡ (after, ok tt)
      → Scanned s before after
  scan_segment-Scanned s before after w e = elim (Bool-cases (s.kind == pt_load)) [
    | inr skip ↦
        subst (Scanned s before) (ap (λ r. r.0) (sym (scan_segment-skip s before skip) ∙ e))
          (record {
            covers = λ k. absurd (ground arith);
            grows = record { minimum_falls = omega arith; maximum_rises = omega arith };
            word = λ h. h;
          })
    | inl load ↦ elim (Option-cases (segment_end size page_size s)) [
      | inl failed ↦ absurd (scan_segment-fail s before after load failed e)
      | inr (end, ends) ↦
          subst (Scanned s before) (ap (λ r. r.0) (sym (scan_segment-take s before load ends) ∙ e))
            (taken end ends)
    ]
  ]
    where
      taken :
          (end : ℕ)
          → segment_end size page_size s ≡ some end
          → Scanned s before (extend (align_down s.vaddr page_size) end before)
      taken end ends = record {
        covers = λ k. extend-Inside s before w ends;
        grows = extend-Grows (align_down s.vaddr page_size) end before;
        word =
            extend-word (align_down s.vaddr page_size) end before (segment_end_bounds s w ends).1;
      }

  -- What the loop establishes, if it succeeds.
  record ScannedAll (ss : List Segment) (before after : Extent) : Type 0 where
    covers : All (Covers after) ss
    grows : Grows before after
    word : before.maximum < 4294967296 → after.maximum < 4294967296

  scan-ScannedAll :
      (ss : List Segment) (before after : Extent)
      → All IsWord ss
      → for_each ss (scan_segment size page_size) before ≡ (after, ok tt)
      → ScannedAll ss before after
  unfolding for_each
  scan-ScannedAll [] before after w e =
      let same : before ≡ after = ap (λ r. r.0) e in
      record {
        covers = tt;
        grows = subst (Grows before) same (omega arith);
        word = λ h. subst (λ x. x.maximum < 4294967296) same h;
      }
  scan-ScannedAll (s ∷ ss) before after w e =
      let (u, one, more) =
        >>=-eq-ok (scan_segment size page_size s) (λ _. for_each ss (scan_segment size page_size))
          before e in
      let between : Extent = (scan_segment size page_size s before).0 in
      let first = scan_segment-Scanned s before between w.0 (pair_path one) in
      let rest = scan-ScannedAll ss between after w.1 more in
      record {
        covers = (λ k. Inside-mono s rest.grows (first.covers k), rest.covers);
        grows = omega (
          arith, first.grows.minimum_falls, first.grows.maximum_rises, rest.grows.minimum_falls,
          rest.grows.maximum_rises,
        );
        word = λ h. rest.word (first.word h);
      }
    where
      pair_path :
          {u : Unit {0}}
          → (scan_segment size page_size s before).1 ≡ ok u
          → scan_segment size page_size s before ≡ ((scan_segment size page_size s before).0, ok tt)
      pair_path one = λ i. ((scan_segment size page_size s before).0, one i)

read_segment-IsWord : (m : Memory) (a : ℕ) → IsBytes m → IsWord (read_segment m a)
unfolding read_segment
read_segment-IsWord m a b = record {
  vaddr_word = read32-lt m (a + 8) b;
  memsz_word = read32-lt m (a + 20) b;
}

map-IsWord :
    (m : Memory) (base : ℕ) (is : List ℕ)
    → IsBytes m
    → All IsWord (map (λ i. read_segment m (base + i * segment_size)) is)
map-IsWord m base [] b = tt
map-IsWord m base (i ∷ is) b =
    (read_segment-IsWord m (base + i * segment_size) b, map-IsWord m base is b)

pub table-IsWord :
    (m : Memory) (base count : ℕ)
    → IsBytes m
    → All IsWord (table read_segment segment_size m base count)
unfolding table
table-IsWord m base count b = map-IsWord m base (indices 0 count) b

-- The segments of the file's program headers.
abbrev pub file_segments : Host → Header → List Segment
file_segments host header = table read_segment segment_size host.content header.phoff header.phnum

pub check_extent-ok :
    (r : Extent × Result Error (Unit {0})) {extent : Extent}
    → check_extent r ≡ ok extent
    → (r ≡ (extent, ok tt)) × (extent.minimum < extent.maximum)
unfolding check_extent
check_extent-ok (extent, err e) h = absurd (cc h)
check_extent-ok (extent, ok _) h = ground arith

-- What the first loop of elf32_map establishes.
pub record IsExtent (host : Host) (header : Header) (extent : Extent) : Type 0 where
  pub covers : All (Covers extent) (file_segments host header)
  pub nonempty : extent.minimum < extent.maximum
  pub word : extent.maximum < 4294967296

pub scan_segments-IsExtent :
    (host : Host) (header : Header) (size : ℕ) {extent : Extent}
    → IsBytes host.content
    → IsPage host.page_size
    → scan_segments host header size ≡ ok extent
    → IsExtent host header extent
unfolding scan_segments
scan_segments-IsExtent host header size b page e =
    let (run, nonempty) = check_extent-ok _ e in
    let scanned =
      scan-ScannedAll size host.page_size page (file_segments host header) no_extent _
        (table-IsWord host.content header.phoff header.phnum b) run in
    record { covers = scanned.covers; nonempty = nonempty; word = scanned.word (omega arith) }

-- A page size that elf32_map accepts is a power of two.
pub page_size_valid-IsPage :
    (page_size : ℕ) → page_size < 4294967296 → page_size_valid page_size ≡ true → IsPage page_size
unfolding page_size_valid
page_size_valid-IsPage page_size word h =
    let (k, e) = power_of_two page_size page_size (omega arith) (ground arith) (ground arith) in
    record { exponent = k; small = small k e (dec_lt 32 k); power = e }
  where
    small : (k : ℕ) → page_size ≡ 2 ^ k → Dec (32 < k) → k ≤ 32
    small k e (yes big) = absurd (omega (arith, two-pow_le 33 k big))
    small k e (no n) = omega arith
