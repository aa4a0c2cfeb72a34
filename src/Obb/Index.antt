-- ===== src/Obb/Index.antt =====
-- nfsmw_obb_asset_size and nfsmw_obb_list of obb_index.c.
pub mod Slashes
pub mod Lookup
pub mod Sizes
pub mod Buffer
pub mod Children
use nfsmw_arm_linux.Prelude.{
  ℕ, zero, suc, ◌+◌, ◌-◌, ◌*◌, Bool, true, false, ◌&&◌, ◌||◌, not, Option, none, some, List, [],
  ◌∷◌, ◌++◌, if◌then◌else◌, ◌==◌, ltb, leb, length, take, Bytes, codes, same_bytes, strip_prefix,
}
use nfsmw_arm_linux.Obb.Parse.{Entry, Index, name_limit, slash}

unfoldable pub skip_slashes : Bytes → Bytes
skip_slashes [] = []
skip_slashes (c ∷ cs) = if c == slash then skip_slashes cs else c ∷ cs

-- NULL is `none`.
unfoldable pub normalize : Option Bytes → Bytes
normalize none = []
normalize (some path) = skip_slashes path

unfoldable pub trim_step : ℕ → Bytes → Bytes
trim_step c [] = if c == slash then [] else c ∷ []
trim_step c (d ∷ ds) = c ∷ d ∷ ds

-- The string up to its last byte that is no slash.
unfoldable pub trim_slashes : Bytes → Bytes
unfolding trim_step
trim_slashes [] = []
trim_slashes (c ∷ cs) = trim_step c (trim_slashes cs)

-- A name without its last byte if that is a slash.
unfoldable pub drop_slash : Bytes → Bytes
drop_slash [] = []
drop_slash (c ∷ []) = if c == slash then [] else c ∷ []
drop_slash (c ∷ d ∷ ds) = c ∷ drop_slash (d ∷ ds)

-- The result -2 is `missing`, and -1 is `directory`.
pub data AssetSize : Type 0 where
  file : ℕ → AssetSize
  directory : AssetSize
  missing : AssetSize

unfoldable pub entry_size : Entry → AssetSize
entry_size entry = if entry.directory then directory else file entry.size

-- The loop over the entries for one full name.
unfoldable pub find_entry : List Entry → Bytes → Option AssetSize
find_entry [] key = none
find_entry (entry ∷ entries) key =
    let rest = find_entry entries key in
    if same_bytes (drop_slash entry.name) key then some (entry_size entry) else rest

-- The name looked for under a prefix, unless the prefix is skipped.
unfoldable pub prefixed : Bytes → Bytes → Option Bytes
prefixed wanted [] = if leb name_limit (length wanted) then none else some (trim_slashes wanted)
prefixed wanted (c ∷ cs) = elim (strip_prefix (c ∷ cs) wanted) [
  | some rest ↦ none
  | none ↦
      if leb name_limit (length (c ∷ cs) + length wanted)
      then none
      else some ((c ∷ cs) ++ trim_slashes wanted)
]

abbrev pub prefixes : List Bytes
prefixes = codes "" ∷ codes "published/" ∷ codes "published.1x/" ∷ []

unfoldable pub find_under : List Entry → Bytes → Bytes → Option AssetSize
find_under entries wanted prefix = elim (prefixed wanted prefix) [
  | none ↦ none
  | some key ↦ find_entry entries key
]

-- The loop over the prefixes.
unfoldable pub find_asset : List Entry → Bytes → List Bytes → AssetSize
find_asset entries wanted [] = missing
find_asset entries wanted (prefix ∷ rest) = elim (find_under entries wanted prefix) [
  | none ↦ find_asset entries wanted rest
  | some found ↦ found
]

unfoldable pub nfsmw_obb_asset_size : Index → Option Bytes → AssetSize
nfsmw_obb_asset_size index path = find_asset index.entries (normalize path) prefixes

-- The bytes before the first slash.
unfoldable pub component : Bytes → Bytes
component [] = []
component (c ∷ cs) = if c == slash then [] else c ∷ component cs

unfoldable pub listed : Bytes → List Bytes → Bool
listed candidate [] = false
listed candidate (found ∷ rest) = same_bytes (component found) candidate || listed candidate rest

-- One round of the loop: the names found so far, in order.
unfoldable pub list_entry : (prefix : Bytes) → Entry → List Bytes → List Bytes
list_entry prefix entry found = elim (strip_prefix prefix entry.name) [
  | none ↦ found
  | some remainder ↦ elim (component remainder) [
    | [] ↦ found
    | c ∷ cs ↦ if listed (c ∷ cs) found then found else found ++ (remainder ∷ [])
  ]
]

unfoldable pub list_entries : (prefix : Bytes) → List Entry → List Bytes → List Bytes
list_entries prefix [] found = found
list_entries prefix (entry ∷ entries) found =
    list_entries prefix entries (list_entry prefix entry found)

-- `char prefix[NAME_LIMIT]`, filled from its start: a byte past its end does not fit.
unfoldable pub push : (byte : ℕ) → (buffer : Bytes) → Option Bytes
push byte buffer = if ltb (length buffer) name_limit then some (buffer ++ (byte ∷ [])) else none

-- `memcpy` to the buffer.
unfoldable pub push_all : (bytes buffer : Bytes) → Option Bytes
push_all [] buffer = some buffer
push_all (byte ∷ bytes) buffer = elim (push byte buffer) [
  | none ↦ none
  | some pushed ↦ push_all bytes pushed
]

-- What nfsmw_obb_list writes to the buffer: `none` if it runs past its end.
unfoldable pub fill_prefix : (wanted : Bytes) → Option Bytes
fill_prefix [] = push 0 []
fill_prefix (c ∷ cs) = push_all ((c ∷ cs) ++ (slash ∷ 0 ∷ [])) []

unfoldable pub prefix_length : (wanted : Bytes) → ℕ
prefix_length [] = 0
prefix_length (c ∷ cs) = length (c ∷ cs) + 1

-- What nfsmw_obb_list does: it returns the children, or writes past its buffer of NAME_LIMIT bytes.
pub data Listing : Type 0 where
  children : List Bytes → Index → Listing
  no_memory : Index → Listing
  overflow : Listing

-- What follows once the buffer is filled: its first `prefix_length` bytes are compared.
-- `realloc_ok` tells whether `realloc` of a size succeeds.
unfoldable pub list_under : (ℕ → Bool) → Index → (prefix : Bytes) → Listing
list_under realloc_ok index prefix =
    let count = length index.entries in
    let grown = record index {
      list_capacity = if ltb index.list_capacity count then count else index.list_capacity;
    } in
    if ltb index.list_capacity count && not (realloc_ok (count * 4))
    then no_memory index
    else children (list_entries prefix index.entries []) grown

unfoldable pub nfsmw_obb_list : (ℕ → Bool) → Index → Option Bytes → Listing
nfsmw_obb_list realloc_ok index path =
    let wanted = trim_slashes (normalize path) in
    elim (fill_prefix wanted) [
      | none ↦ overflow
      | some buffer ↦ list_under realloc_ok index (take (prefix_length wanted) buffer)
    ]
