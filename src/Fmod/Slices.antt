-- ===== src/Fmod/Slices.antt =====
-- The callbacks on a C library whose streams are regular files: they serve slices of the file.
use nfsmw_arm_linux.Prelude.{
  zero, suc, ap₂, ◌∙◌, ℕ, ◌+◌, ◌-◌, ◌≤◌, ◌≡◌, true, false, Option, some, [], ◌∷◌, arith,
  if◌then◌else◌, leb, length, take, drop, Bytes, ok, word_max,
}
use nfsmw_arm_linux.Fmod.{
  fmod_ok, file_eof, nfsmw_fmod_audio_path, Stdio, nfsmw_fmod_file_open, nfsmw_fmod_file_read,
  nfsmw_fmod_file_seek,
}

-- The documented behaviour of the C library's streams on regular files that cause no read errors. The
-- file of a stream and its position determine what a read gives.
pub record IsRegular {S : Type 0} (stdio : Stdio S) (content : S → Bytes) (position : S → ℕ)
    : Type 0 where
  pub measured :
      (s : S)
      → (s' : S) × ((stdio.measure s ≡ some (length (content s), s'))
          × ((content s' ≡ content s) × (position s' ≡ 0)))
  pub sought :
      (s : S) (n : ℕ)
      → (s' : S) × ((stdio.fseek s n ≡ some s') × ((content s' ≡ content s) × (position s' ≡ n)))
  pub delivered : (s : S) (n : ℕ) → (stdio.fread s n).0 ≡ take n (drop (position s) (content s))
  pub advanced :
      (s : S) (n : ℕ)
      → (content (stdio.fread s n).1 ≡ content s)
        × (position (stdio.fread s n).1 ≡ position s + length (stdio.fread s n).0)
  pub no_error : (s : S) (n : ℕ) → stdio.ferror (stdio.fread s n).1 ≡ false

length-take :
    (n : ℕ) (cs : Bytes) → length (take n cs) ≡ (if leb n (length cs) then n else length cs)
length-take zero cs = ground arith
length-take (suc n) [] = ground arith
length-take (suc n) (c ∷ cs) = ground (arith, length-take n cs)

length-drop : (n : ℕ) (cs : Bytes) → length (drop n cs) ≡ length cs - n
length-drop zero cs = ground arith
length-drop (suc n) [] = ground arith
length-drop (suc n) (c ∷ cs) = ground (arith, length-drop n cs)

module _ {S : Type 0} (stdio : Stdio S) (content : S → Bytes) (position : S → ℕ)
    (regular : IsRegular stdio content position) where
  read-slice :
      (s : S) (n : ℕ)
      → ((nfsmw_fmod_file_read stdio (some s) true n true).0
          ≡ (if leb n (length (content s) - position s) then fmod_ok else file_eof))
        × ((nfsmw_fmod_file_read stdio (some s) true n true).1.0
            ≡ some (take n (drop (position s) (content s))))
  unfolding nfsmw_fmod_file_read
  read-slice s zero = (ground arith, ground arith)
  read-slice s (suc n) = (
    ground (
      arith,
      regular.no_error s (suc n),
      regular.delivered s (suc n),
      length-take (suc n) (drop (position s) (content s)),
      length-drop (position s) (content s),
    ),
    ground (arith, regular.no_error s (suc n), regular.delivered s (suc n)),
  )

  -- On a C library whose streams are regular files without read errors: where a name is accepted, its
  -- file opens and has at most 2^32 - 1 bytes, the open callback reports the file's size, and after a
  -- seek to any position the read callback stores the bytes from there, as many as asked for or as
  -- remain. It returns FMOD_OK if that is all that were asked for, and FMOD_ERR_FILE_EOF otherwise.
  pub open-seek-read :
      (root : Option Bytes) (name path : Bytes) (file : S) (start n : ℕ)
      → nfsmw_fmod_audio_path root (some name) 4096 ≡ some path
      → stdio.fopen path ≡ ok file
      → length (content file) ≤ word_max
      → (opened : S) × ((sought : S) × ((nfsmw_fmod_file_open stdio root (some name) 0 true true
              ≡ (fmod_ok, some (length (content file), some opened)))
            × ((nfsmw_fmod_file_seek stdio (some opened) start ≡ (fmod_ok, some sought))
                × (((nfsmw_fmod_file_read stdio (some sought) true n true).0
                      ≡ (if leb n (length (content file) - start) then fmod_ok else file_eof))
                    × ((nfsmw_fmod_file_read stdio (some sought) true n true).1.0
                        ≡ some (take n (drop start (content file))))))))
  unfolding nfsmw_fmod_file_open nfsmw_fmod_file_seek
  open-seek-read root name path file start n accepted found small =
      let (opened, measured) = regular.measured file in
      let (sought, moved) = regular.sought opened start in
      let same : content sought ≡ content file = moved.1.0 ∙ measured.1.0 in
      let slice = read-slice sought n in
      (
        opened,
        (
          sought,
          (
            ground (arith, accepted, found, measured.0),
            (
              ground (arith, moved.0),
              (
                slice.0
                    ∙ ap₂ (λ cs p. if leb n (length cs - p) then fmod_ok else file_eof) same
                        moved.1.1,
                slice.1 ∙ ap₂ (λ cs p. some (take n (drop p cs))) same moved.1.1,
              ),
            ),
          ),
        ),
      )
