-- ===== src/Obb/Parse/Directory.antt =====
-- What nfsmw_obb_open has read when it succeeds.
use nfsmw_arm_linux.Prelude.{
  ℕ, zero, suc, ◌+◌, ◌-◌, ◌≤◌, ◌<◌, ◌≡◌, refl, ◌≢◌, ◌⊎◌, ◌∙◌, ap, sym, subst, Result, inl, inr,
  Bool, Option, none, some, List, [], ◌∷◌, All, arith, Option-cases, Result-cases, length, take,
  drop, Bytes, ok, err, if◌then◌else◌, ltb,
}
use nfsmw_arm_linux.Obb.Parse.{
  Entry, Index, Error, empty_path, cannot_open, open_archive, fill_index, finish_open,
  nfsmw_obb_close, find_eocd, read_u16, read_u32, until_nul, read_at, read_name, read_entry,
  read_entries, read_directory, read_archive, nfsmw_obb_open, eocd_signature, eocd_search,
  name_limit, closed,
}
use nfsmw_arm_linux.Obb.Parse.Search.{NoSignature, find_eocd-found}

-- What the index promises of an entry's name.
abbrev pub Named : Entry → Type 0
Named entry = length entry.name < name_limit

-- If the result is a success, there are so many entries, and each name is short.
abbrev IsFilled : ℕ → List Entry × Result Error (Unit {0}) → Type 0
IsFilled count read = read.1 ≡ ok tt → (length read.0 ≡ count) × All Named read.0

until_nul-length : (cs : Bytes) → length (until_nul cs) ≤ length cs
unfolding until_nul
until_nul-length [] = ground arith
until_nul-length (c ∷ cs) = ground (arith, until_nul-length cs)

take-length : (n : ℕ) (cs : Bytes) → length (take n cs) ≤ n
take-length zero cs = ground arith
take-length (suc n) [] = ground arith
take-length (suc n) (c ∷ cs) = ground (arith, take-length n cs)

read_at-length :
    (file : Bytes) (p n : ℕ) (out : Bytes) → read_at file p n ≡ some out → length out ≤ n
unfolding read_at
read_at-length file p n out h = ground (arith, take-length n (drop p file))

module _ (alloc : ℕ → Bool) (file : Bytes) where
  read_name-Named :
      (position : ℕ) (header : Bytes) (entry : Entry) (next : ℕ)
      → read_name alloc file position header ≡ ok (entry, next)
      → Named entry
  unfolding read_name
  read_name-Named position header entry next h =
      let length_read = read_u16 header 28 in
      elim (Option-cases (read_at file position length_read)) [
        | inl e ↦ ground (arith, e)
        | inr (name, e) ↦
            ground
              (arith, e, read_at-length file position length_read name e, until_nul-length name)
      ]

  read_entry-Named :
      (position : ℕ) (entry : Entry) (next : ℕ)
      → read_entry alloc file position ≡ ok (entry, next)
      → Named entry
  unfolding read_entry
  read_entry-Named position entry next h = elim (Option-cases (read_at file position 46)) [
    | inl e ↦ ground (arith, e)
    | inr (header, e) ↦ ground (arith, e, read_name-Named (position + 46) header entry next)
  ]

  read_entries-stop :
      (count position : ℕ) (x : Error)
      → read_entry alloc file position ≡ err x
      → read_entries alloc file (suc count) position ≡ ([], err x)
  unfolding read_entries
  read_entries-stop count position x e = rw (e, read_entries) refl

  read_entries-next :
      (count position : ℕ) (entry : Entry) (next : ℕ)
      → read_entry alloc file position ≡ ok (entry, next)
      → read_entries alloc file (suc count) position
        ≡ (entry ∷ (read_entries alloc file count next).0, (read_entries alloc file count next).1)
  unfolding read_entries
  read_entries-next count position entry next e = rw (e, read_entries) refl

  read_entries-IsFilled :
      (count position : ℕ) → IsFilled count (read_entries alloc file count position)
  unfolding read_entries
  read_entries-IsFilled zero position = λ h. (ground arith, ground arith)
  read_entries-IsFilled (suc count) position =
      elim (Result-cases (read_entry alloc file position)) [
        | inr (x, e) ↦
            subst (IsFilled (suc count)) (sym (read_entries-stop count position x e))
              (λ h. absurd (ground (arith, h)))
        | inl ((entry, next), e) ↦
            subst (IsFilled (suc count)) (sym (read_entries-next count position entry next e)) (λ h.
              let later = read_entries-IsFilled count next h in
              (ap suc later.0, (read_entry-Named position entry next e, later.1)))
      ]

-- The bytes that nfsmw_obb_open searches: the last 65557 of the file, or all of a shorter one.
abbrev pub tail_size : Bytes → ℕ
tail_size file = if ltb (length file) eocd_search then length file else eocd_search

abbrev pub tail : Bytes → Bytes
tail file = drop (length file - tail_size file) file

-- What a successful nfsmw_obb_open says of the file.
pub record Opened (file : Bytes) (entries : List Entry) : Type 0 where
  pub eocd : ℕ
  pub whole : 22 ≤ length file
  pub inside : eocd + 22 ≤ tail_size file
  pub found : read_u32 (tail file) eocd ≡ eocd_signature
  pub highest : NoSignature (tail file) eocd (tail_size file - 22)
  pub counted : length entries ≡ read_u16 (tail file) (eocd + 10)
  pub no_zip64 : read_u16 (tail file) (eocd + 10) ≢ 65535
  pub names : All Named entries

module _ (alloc : ℕ → Bool) (file : Bytes) where
  read_directory-counted :
      (cs : Bytes) (eocd : ℕ)
      → (read_directory alloc file cs eocd).1 ≡ ok tt
      → (read_directory alloc file cs eocd
          ≡ read_entries alloc file (read_u16 cs (eocd + 10)) (read_u32 cs (eocd + 16)))
        × (read_u16 cs (eocd + 10) ≢ 65535)
  unfolding read_directory
  read_directory-counted cs eocd h = (ground arith, ground arith)

  read_archive-found :
      (eocd : ℕ)
      → find_eocd (tail file) (tail_size file - 22) ≡ some eocd
      → (read_archive alloc file).1 ≡ ok tt
      → (read_archive alloc file ≡ read_directory alloc file (tail file) eocd) × (22 ≤ length file)
  unfolding read_archive
  read_archive-found eocd e h = (ground (arith, e), ground (arith, e))

  read_archive-missing :
      find_eocd (tail file) (tail_size file - 22) ≡ none → (read_archive alloc file).1 ≢ ok tt
  unfolding read_archive
  read_archive-missing e h = ground (arith, e)

  read_archive-Opened :
      (read_archive alloc file).1 ≡ ok tt → Opened file (read_archive alloc file).0
  read_archive-Opened h = elim (Option-cases (find_eocd (tail file) (tail_size file - 22))) [
    | inl e ↦ absurd (read_archive-missing e h)
    | inr (eocd, e) ↦
        let at = find_eocd-found (tail file) (tail_size file - 22) eocd e in
        let found = read_archive-found eocd e h in
        let read = read_directory-counted (tail file) eocd (ap (λ r. r.1) (sym found.0) ∙ h) in
        let is = found.0 ∙ read.0 in
        let filled =
          read_entries-IsFilled alloc file (read_u16 (tail file) (eocd + 10))
            (read_u32 (tail file) (eocd + 16)) (ap (λ r. r.1) (sym is) ∙ h) in
        record {
          eocd = eocd;
          whole = found.1;
          inside = ground (arith, at.0, found.1);
          found = at.1;
          highest = at.2;
          counted = ap (λ r. length r.0) is ∙ filled.0;
          no_zip64 = read.1;
          names = subst (λ r. All Named r.0) (sym is) filled.1;
        }
  ]

module _ (index : Index) (path : Bytes) where
  finish_open-err :
      (read : List Entry × Result Error (Unit {0})) (x : Error)
      → read.1 ≡ err x
      → finish_open (fill_index index path read) ≡ (closed, err x)
  unfolding fill_index finish_open nfsmw_obb_close
  finish_open-err (entries, err y) x e = ap (λ r. (closed, r)) e
  finish_open-err (entries, ok u) x e = absurd (ground (arith, e))

  finish_open-ok :
      (read : List Entry × Result Error (Unit {0}))
      → read.1 ≡ ok tt
      → finish_open (fill_index index path read)
        ≡ (record index { entries = read.0; archive_path = take (name_limit - 1) path }, ok tt)
  unfolding fill_index finish_open
  finish_open-ok (entries, err y) e = absurd (ground (arith, e))
  finish_open-ok (entries, ok tt) e = refl

-- Whatever index an earlier call left, nfsmw_obb_open either fails and leaves the index closed, or the
-- file could be opened, its tail has an end-of-directory record, the index has as many entries as the
-- highest one says, which is no ZIP64 mark, and each name is shorter than NAME_LIMIT.
pub nfsmw_obb_open-Opened :
    (alloc : ℕ → Bool) (prior : Index) (path file : Option Bytes)
    → ((e : Error) × (nfsmw_obb_open alloc prior path file ≡ (closed, err e)))
      ⊎ ((bytes : Bytes) × (file ≡ some bytes)
          × ((nfsmw_obb_open alloc prior path file).1 ≡ ok tt)
          × Opened bytes (nfsmw_obb_open alloc prior path file).0.entries)
unfolding nfsmw_obb_open open_archive finish_open nfsmw_obb_close
nfsmw_obb_open-Opened alloc prior none file = inl (empty_path, refl)
nfsmw_obb_open-Opened alloc prior (some []) file = inl (empty_path, refl)
nfsmw_obb_open-Opened alloc prior (some (c ∷ cs)) none = inl (cannot_open, refl)
nfsmw_obb_open-Opened alloc prior (some (c ∷ cs)) (some file) =
    let done = nfsmw_obb_close prior in
    elim (Result-cases (read_archive alloc file).1) [
      | inl (tt, e) ↦
          let is = finish_open-ok done (c ∷ cs) (read_archive alloc file) e in
          inr (
            file,
            refl,
            ap (λ r. r.1) is,
            subst (λ r. Opened file r.0.entries) (sym is) (read_archive-Opened alloc file e),
          )
      | inr (x, e) ↦ inl (x, finish_open-err done (c ∷ cs) (read_archive alloc file) x e)
    ]
