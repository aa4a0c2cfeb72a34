-- ===== src/Fmod.antt =====
-- runtime/src/fmod_filesystem.h: the sound files that FMOD reads. A `char *` is its bytes, and NULL
-- is `none`. Log lines have no effect here.
pub mod Path
pub mod Slices
pub mod Features
mod Tests
use nfsmw_arm_linux.Prelude.{
  ℕ, ◌+◌, Bool, true, false, ◌||◌, ◌&&◌, not, Option, none, some, List, [], ◌∷◌, ◌++◌,
  if◌then◌else◌, ◌==◌, ltb, leb, length, Bytes, codes, strip_prefix, word_max, Result, ok, err,
}
use nfsmw_arm_linux.Obb.Index.{skip_slashes}

pub data Code : Type 0 where
  fmod_ok file_bad could_not_seek file_eof not_found invalid_param : Code

-- `strstr(name, "..") != NULL`.
unfoldable pub has_dots : Bytes → Bool
has_dots [] = false
has_dots (c ∷ []) = false
has_dots (c ∷ d ∷ ds) = c == b'.' && d == b'.' || has_dots (d ∷ ds)

abbrev pub published : Bytes
published = codes "published/"

abbrev pub sounds : Bytes
sounds = codes "sounds/"

-- The name below `published`, for the two prefixes that are accepted.
unfoldable pub relative : Bytes → Option Bytes
relative name = elim (strip_prefix (published ++ sounds) name) [
  | some rest ↦ some (sounds ++ rest)
  | none ↦ elim (strip_prefix sounds name) [ some rest ↦ some name | none ↦ none ]
]

unfoldable pub nfsmw_fmod_audio_path :
    (root : Option Bytes) → (name : Option Bytes) → (size : ℕ) → Option Bytes
nfsmw_fmod_audio_path none name size = none
nfsmw_fmod_audio_path (some []) name size = none
nfsmw_fmod_audio_path (some (c ∷ cs)) none size = none
nfsmw_fmod_audio_path (some (c ∷ cs)) (some name) size =
    if has_dots name then none else elim (relative (skip_slashes name)) [
      | none ↦ none
      | some rest ↦
          let path = (c ∷ cs) ++ (codes "/" ++ (published ++ rest)) in
          if ltb (length path) size then some path else none
    ]

-- What the callbacks use of the C library: `fopen(path, "rb")`, whose error is whether errno is
-- ENOENT, the size that `fseeko` and `ftello` find (`none` for a failure) with the stream rewound,
-- `fclose`, `fread` of n bytes with `ferror`, and `fseeko` from the start.
pub record Stdio (S : Type 0) : Type 0 where
  pub fopen : Bytes → Result Bool S
  pub measure : S → Option (ℕ × S)
  pub fclose : S → Bool
  pub fread : S → ℕ → Bytes × S
  pub ferror : S → Bool
  pub fseek : S → ℕ → Option S

module _ {S : Type 0} (stdio : Stdio S) where
  -- The code, and what is stored in `*size` and `*handle`, if anything; the flags tell which of the
  -- two pointers are not NULL.
  unfoldable pub nfsmw_fmod_file_open :
      (root : Option Bytes)
      → (name : Option Bytes) → (unicode : ℕ) → (size_given handle_given : Bool)
      → Code × Option (ℕ × Option S)
  nfsmw_fmod_file_open root none unicode size_given handle_given = (invalid_param, none)
  nfsmw_fmod_file_open root (some name) unicode size_given handle_given =
      if not size_given || (not handle_given || not (unicode == 0))
      then (invalid_param, none)
      else elim (nfsmw_fmod_audio_path root (some name) 4096) [
        | none ↦ (not_found, some (0, none))
        | some path ↦ elim (stdio.fopen path) [
          | err missing ↦ (if missing then not_found else file_bad, some (0, none))
          | ok file ↦ elim (stdio.measure file) [
            | none ↦ (file_bad, some (0, none))
            | some (size, rewound) ↦
                if ltb word_max size
                then (file_bad, some (0, none))
                else (fmod_ok, some (size, some rewound))
          ]
        ]
      ]

  unfoldable pub nfsmw_fmod_file_close : Option S → Code
  nfsmw_fmod_file_close none = invalid_param
  nfsmw_fmod_file_close (some file) = if stdio.fclose file then fmod_ok else file_bad

  -- The code, the bytes stored in the buffer (`*read` is their number) unless `read` is NULL, and
  -- the stream.
  unfoldable pub nfsmw_fmod_file_read :
      Option S
      → (buffer_given : Bool) → (bytes : ℕ) → (read_given : Bool) → Code × (Option Bytes × Option S)
  nfsmw_fmod_file_read none buffer_given bytes read_given =
      (invalid_param, (if read_given then some [] else none, none))
  nfsmw_fmod_file_read (some file) buffer_given bytes read_given =
      let (result, file') = stdio.fread file bytes in
      if not read_given
      then (invalid_param, (none, some file))
      else if not buffer_given && not (bytes == 0)
      then (invalid_param, (some [], some file))
      else if bytes == 0
      then (fmod_ok, (some [], some file))
      else if stdio.ferror file'
      then (file_bad, (some result, some file'))
      else (if length result == bytes then fmod_ok else file_eof, (some result, some file'))

  unfoldable pub nfsmw_fmod_file_seek : Option S → (position : ℕ) → Code × Option S
  nfsmw_fmod_file_seek none position = (invalid_param, none)
  nfsmw_fmod_file_seek (some file) position = elim (stdio.fseek file position) [
    | none ↦ (could_not_seek, some file)
    | some file' ↦ (fmod_ok, some file')
  ]
