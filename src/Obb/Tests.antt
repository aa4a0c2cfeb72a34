-- ===== src/Obb/Tests.antt =====
-- A small archive of three entries, opened, listed and looked up.
use nfsmw_arm_linux.Prelude.{
  ℕ, zero, suc, ◌≤◌, ◌≡◌, ◌≢◌, refl, ◌⊎◌, ◌↔◌, Bool, true, false, some, List, [], ◌∷◌, ◌++◌, arith,
  length, Bytes, codes, same_bytes, strip_prefix, Result, ok, err,
}
use nfsmw_arm_linux.Obb.Parse.{
  Entry, Index, Error, find_eocd, until_nul, read_at, read_name, read_entry, read_entries,
  read_directory, read_archive, read_u16, read_u32, nfsmw_obb_open, nfsmw_obb_close, open_archive,
  fill_index, finish_open, closed, no_directory,
}
use nfsmw_arm_linux.Obb.Parse.Directory.{Opened, nfsmw_obb_open-Opened}
use nfsmw_arm_linux.Obb.Index.{
  normalize, trim_slashes, component, listed, list_entry, list_entries, push, push_all, fill_prefix,
  prefix_length, list_under, skip_slashes, find_asset, find_under, prefixed, find_entry,
  nfsmw_obb_list, children, overflow, nfsmw_obb_asset_size, file, directory, missing, entry_size,
  drop_slash,
}
use nfsmw_arm_linux.Obb.Index.Slashes.{slashes}
use nfsmw_arm_linux.Obb.Index.Sizes.{Absent, nfsmw_obb_asset_size-missing_iff}
use nfsmw_arm_linux.Obb.Index.Children.{any_offers, Distinct, nfsmw_obb_list-children}
use nfsmw_arm_linux.Obb.Index.Buffer.{list_prefix, nfsmw_obb_list-overflow_iff}

abbrev zeros : ℕ → Bytes
zeros zero = []
zeros (suc n) = 0 ∷ zeros n

-- An entry of the central directory, its size below 256.
abbrev central : (size : ℕ) → Bytes → Bytes
central size name =
    0x50
    ∷ 0x4b
    ∷ 1
    ∷ 2
    ∷ (zeros 20 ++ (size ∷ 0 ∷ 0 ∷ 0 ∷ length name ∷ 0 ∷ 0 ∷ 0 ∷ 0 ∷ 0 ∷ (zeros 12 ++ name)))

abbrev end_record : (count offset : ℕ) → Bytes
end_record count offset =
    0x50 ∷ 0x4b ∷ 5 ∷ 6 ∷ (zeros 6 ++ (count ∷ 0 ∷ 0 ∷ 0 ∷ 0 ∷ 0 ∷ offset ∷ 0 ∷ 0 ∷ 0 ∷ 0 ∷ 0 ∷ []))

abbrev archive : Bytes
archive =
    7
    ∷ 7
    ∷ (central 0 (codes "published/d/")
        ++ (central 5 (codes "published/d/a")
            ++ (central 6 (codes "published/d/b/c") ++ end_record 3 2)))

abbrev granted : ℕ → Bool
granted n = true

-- What an earlier archive left.
abbrev stale : Index
stale = record {
  entries = record { name = codes "old"; size = 1; directory = false } ∷ [];
  archive_path = codes "old.obb";
  list_capacity = 1;
}

unfoldable opened : Index × Result Error (Unit {0})
unfolding nfsmw_obb_open nfsmw_obb_close open_archive fill_index finish_open read_archive
    read_directory read_entries read_entry read_name read_at until_nul find_eocd read_u16 read_u32
opened = nfsmw_obb_open granted stale (some (codes "main.obb")) (some archive)

abbrev index : Index
index = opened.0

opened-ok : opened.1 ≡ ok tt
unfolding opened
opened-ok = refl

opened-entries :
    index.entries
    ≡ record { name = codes "published/d/"; size = 0; directory = true }
      ∷ record { name = codes "published/d/a"; size = 5; directory = false }
      ∷ record { name = codes "published/d/b/c"; size = 6; directory = false }
      ∷ []
unfolding opened
opened-entries = refl

-- A file without the signature is refused, and the index is closed.
refused :
    nfsmw_obb_open granted stale (some (codes "x")) (some (zeros 30)) ≡ (closed, err no_directory)
unfolding nfsmw_obb_open nfsmw_obb_close open_archive fill_index finish_open read_archive find_eocd
    read_u32
refused = refl

file_size : nfsmw_obb_asset_size index (some (codes "/d/a")) ≡ file 5
unfolding opened nfsmw_obb_asset_size normalize skip_slashes find_asset find_under prefixed
    trim_slashes strip_prefix find_entry drop_slash entry_size same_bytes
file_size = refl

directory_size : nfsmw_obb_asset_size index (some (codes "d//")) ≡ directory
unfolding opened nfsmw_obb_asset_size normalize skip_slashes find_asset find_under prefixed
    trim_slashes strip_prefix find_entry drop_slash entry_size same_bytes
directory_size = refl

listed_once :
    nfsmw_obb_list granted index (some (codes "published/d"))
    ≡ children (codes "a" ∷ codes "b/c" ∷ []) (record index { list_capacity = 3 })
unfolding opened nfsmw_obb_list normalize skip_slashes trim_slashes fill_prefix push_all push
    prefix_length list_under list_entries list_entry strip_prefix component listed same_bytes
listed_once = refl

nfsmw_obb_open-Opened_example :
    ((e : Error) × (nfsmw_obb_open granted stale (some (codes "main.obb")) (some archive)
        ≡ (closed, err e)))
    ⊎ ((bytes : Bytes) × (some archive ≡ some bytes)
        × ((nfsmw_obb_open granted stale (some (codes "main.obb")) (some archive)).1 ≡ ok tt)
        × Opened bytes
            (nfsmw_obb_open granted stale (some (codes "main.obb")) (some archive)).0.entries)
nfsmw_obb_open-Opened_example =
    nfsmw_obb_open-Opened granted stale (some (codes "main.obb")) (some archive)

nfsmw_obb_asset_size-missing_iff_example :
    (nfsmw_obb_asset_size index (some (slashes 1 ++ (codes "d/x" ++ slashes 2))) ≡ missing) ↔ (
      Absent index.entries (codes "d/x")
      × (((rest : Bytes) → codes "d/x" ++ slashes 2 ≢ codes "published/" ++ rest)
          → Absent index.entries (codes "published/" ++ codes "d/x"))
      × (((rest : Bytes) → codes "d/x" ++ slashes 2 ≢ codes "published.1x/" ++ rest)
          → Absent index.entries (codes "published.1x/" ++ codes "d/x")))
nfsmw_obb_asset_size-missing_iff_example =
    nfsmw_obb_asset_size-missing_iff index 1 2 (codes "d/x") (omega arith) (omega arith)
      (omega arith)

abbrev last : Entry
last = record { name = codes "published/d/b/c"; size = 6; directory = false }

abbrev earlier : List Entry
earlier =
    record { name = codes "published/d/"; size = 0; directory = true }
    ∷ record { name = codes "published/d/a"; size = 5; directory = false }
    ∷ []

nfsmw_obb_list-overflow_iff_example :
    (nfsmw_obb_list granted index (some (codes "published/d")) ≡ overflow)
    ↔ (4095 ≤ length (trim_slashes (normalize (some (codes "published/d")))))
nfsmw_obb_list-overflow_iff_example =
    nfsmw_obb_list-overflow_iff granted index (some (codes "published/d"))

nfsmw_obb_list-children_example :
    (found : List Bytes) × (index' : Index) × (nfsmw_obb_list granted index
        (some (codes "published/d"))
      ≡ children found index')
    × Distinct found
    × ((d : ℕ) (ds : Bytes)
        → listed (d ∷ ds) found
          ≡ any_offers
              (list_prefix (trim_slashes (normalize (some (codes "published/d")))))
              index.entries
              (d ∷ ds))
unfolding opened normalize skip_slashes trim_slashes
nfsmw_obb_list-children_example =
    nfsmw_obb_list-children granted index (some (codes "published/d")) (omega arith) refl
