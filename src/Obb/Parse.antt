-- ===== src/Obb/Parse.antt =====
-- nfsmw_obb_open and nfsmw_obb_close of obb_index.c. A file is the list of its bytes. `long` has 32
-- bits, so offsets from 2^31 on are refused by fseek and ftell.
pub mod Search
pub mod Directory
use nfsmw_arm_linux.Prelude.{
  ℕ, zero, suc, ◌+◌, ◌-◌, ◌*◌, ◌^◌, Bool, true, false, ◌&&◌, ◌||◌, not, Option, none, some, List,
  [], ◌∷◌, ◌++◌, if◌then◌else◌, ◌==◌, ltb, leb, min, length, get_or, take, drop, Bytes, Result, ok,
  err,
}

abbrev pub eocd_search : ℕ
eocd_search = 65557

abbrev pub name_limit : ℕ
name_limit = 4096

abbrev pub long_limit : ℕ
long_limit = 2 ^ 31

abbrev pub slash : ℕ
slash = b'/'

pub record Entry : Type 0 where
  pub name : Bytes
  pub size : ℕ
  pub directory : Bool

-- The static variables, less the buffer `list_result` that nfsmw_obb_list fills and returns.
pub record Index : Type 0 where
  pub entries : List Entry
  pub archive_path : Bytes
  pub list_capacity : ℕ

abbrev pub closed : Index
closed = record { entries = []; archive_path = []; list_capacity = 0 }

pub data Error : Type 0 where
  empty_path cannot_open cannot_read no_directory zip64 cannot_allocate : Error
  invalid_entry invalid_name cannot_read_name invalid_metadata : Error

-- `read_u16` and `read_u32` at an offset into a buffer of bytes.
unfoldable pub read_u16 : Bytes → ℕ → ℕ
read_u16 p i = get_or p i 0 + get_or p (i + 1) 0 * 256

unfoldable pub read_u32 : Bytes → ℕ → ℕ
read_u32 p i =
    get_or p i 0
    + get_or p (i + 1) 0 * 256
    + get_or p (i + 2) 0 * 65536
    + get_or p (i + 3) 0 * 16777216

abbrev pub eocd_signature : ℕ
eocd_signature = 0x06054b50

abbrev pub entry_signature : ℕ
entry_signature = 0x02014b50

-- The search for the end-of-directory record, downwards from an offset.
unfoldable pub find_eocd : Bytes → ℕ → Option ℕ
find_eocd tail zero = if read_u32 tail 0 == eocd_signature then some 0 else none
find_eocd tail (suc eocd) =
    let rest = find_eocd tail eocd in
    if read_u32 tail (suc eocd) == eocd_signature then some (suc eocd) else rest

-- A C string ends at its first NUL.
unfoldable pub until_nul : Bytes → Bytes
until_nul [] = []
until_nul (c ∷ cs) = if c == 0 then [] else c ∷ until_nul cs

-- `fread` of n bytes at a position; `none` for a short read.
unfoldable pub read_at : Bytes → (position n : ℕ) → Option Bytes
read_at file position n =
    if leb (position + n) (length file) then some (take n (drop position file)) else none

-- `name[name_length - 1] == '/'`.
abbrev pub ends_in_slash : Bytes → Bool
ends_in_slash name = get_or name (length name - 1) 0 == slash

-- `alloc` tells whether `malloc` or `calloc` of a size succeeds.
module _ (alloc : ℕ → Bool) (file : Bytes) where
  -- The fields after the fixed header, and the position of the next entry.
  unfoldable pub read_name : (position : ℕ) → (header : Bytes) → Result Error (Entry × ℕ)
  read_name position header =
      let name_length = read_u16 header 28 in
      let skip = read_u16 header 30 + read_u16 header 32 in
      let after = position + name_length in
      if name_length == 0 || leb name_limit name_length
      then err invalid_name
      else elim (if alloc (name_length + 1) then read_at file position name_length else none) [
        | none ↦ err cannot_read_name
        | some name ↦
            if leb long_limit (after + skip)
            then err invalid_metadata
            else ok (
              record {
                name = until_nul name;
                size = read_u32 header 24;
                directory = ends_in_slash name;
              },
              after + skip,
            )
      ]

  unfoldable pub read_entry : (position : ℕ) → Result Error (Entry × ℕ)
  read_entry position = elim (read_at file position 46) [
    | none ↦ err invalid_entry
    | some header ↦
        if read_u32 header 0 == entry_signature
        then read_name (position + 46) header
        else err invalid_entry
  ]

  -- The loop over the entries: those it fills in, and whether it reaches the end.
  unfoldable pub read_entries : (count position : ℕ) → List Entry × Result Error (Unit {0})
  read_entries zero position = ([], ok tt)
  read_entries (suc count) position = elim (read_entry position) [
    | err e ↦ ([], err e)
    | ok (entry, next) ↦ let rest = read_entries count next in (entry ∷ rest.0, rest.1)
  ]

  -- What follows once the record is found at an offset of the tail. `sizeof(*entries)` is 12.
  unfoldable pub read_directory : (tail : Bytes) → (eocd : ℕ) → List Entry × Result Error (Unit {0})
  read_directory tail eocd =
      let count = read_u16 tail (eocd + 10) in
      let central_offset = read_u32 tail (eocd + 16) in
      if count == 0xffff || central_offset == 0xffff_ffff
      then ([], err zip64)
      else if not (alloc (count * 12)) || leb long_limit central_offset
      then ([], err cannot_allocate)
      else read_entries count central_offset

  unfoldable pub read_archive : List Entry × Result Error (Unit {0})
  read_archive =
      let file_size = length file in
      let tail_size = if ltb file_size eocd_search then file_size else eocd_search in
      let tail = drop (file_size - tail_size) file in
      if ltb file_size 22 || leb long_limit file_size
      then ([], err cannot_open)
      else if not (alloc tail_size)
      then ([], err cannot_read)
      else elim (find_eocd tail (tail_size - 22)) [
        | none ↦ ([], err no_directory)
        | some eocd ↦ read_directory tail eocd
      ]

unfoldable pub nfsmw_obb_close : Index → Index
nfsmw_obb_close index = record index { entries = []; archive_path = []; list_capacity = 0 }

-- What the loop leaves in the static variables, with the path after the last entry.
unfoldable pub fill_index :
    Index → (path : Bytes) → List Entry × Result Error (Unit {0}) → Index × Result Error (Unit {0})
fill_index index path (entries, err e) = (record index { entries = entries }, err e)
fill_index index path (entries, ok u) =
    (record index { entries = entries; archive_path = take (name_limit - 1) path }, ok u)

-- nfsmw_obb_open after its test of the path, up to `done`.
unfoldable pub open_archive :
    (ℕ → Bool) → Index → (path : Bytes) → (file : Option Bytes) → Index × Result Error (Unit {0})
open_archive alloc index path none = (index, err cannot_open)
open_archive alloc index path (some file) = fill_index index path (read_archive alloc file)

-- From `done` on: an index that is not complete is closed.
unfoldable pub finish_open : Index × Result Error (Unit {0}) → Index × Result Error (Unit {0})
finish_open (index, err e) = (nfsmw_obb_close index, err e)
finish_open (index, ok u) = (index, ok u)

-- `nfsmw_obb_open(path, …)` on the index that an earlier call left: a NULL path and a file that
-- cannot be opened are `none`.
unfoldable pub nfsmw_obb_open :
    (ℕ → Bool)
    → Index
    → (path : Option Bytes) → (file : Option Bytes) → Index × Result Error (Unit {0})
nfsmw_obb_open alloc prior none file = (nfsmw_obb_close prior, err empty_path)
nfsmw_obb_open alloc prior (some []) file = (nfsmw_obb_close prior, err empty_path)
nfsmw_obb_open alloc prior (some (c ∷ cs)) file =
    finish_open (open_archive alloc (nfsmw_obb_close prior) (c ∷ cs) file)
