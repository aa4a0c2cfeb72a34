-- ===== src/Obb/Index/Lookup.antt =====
-- The loops of nfsmw_obb_asset_size over the entries and the prefixes.
use nfsmw_arm_linux.Prelude.{
  ◌≡◌, refl, ◌≢◌, ◌↔◌, inl, inr, false, none, some, List, [], ◌∷◌, ◌++◌, All, arith, Option-cases,
  Bytes, same_bytes, same_bytes_refl,
}
use nfsmw_arm_linux.Obb.Parse.{Entry}
use nfsmw_arm_linux.Obb.Index.{
  drop_slash, missing, entry_size, find_entry, prefixed, prefixes, find_under, find_asset,
}

-- No entry has the name, a trailing slash apart.
abbrev pub Lacks : Bytes → List Entry → Type 0
Lacks key = All (λ e. same_bytes (drop_slash e.name) key ≡ false)

-- No entry has the name that a prefix gives.
abbrev pub LacksUnder : List Entry → Bytes → Bytes → Type 0
LacksUnder entries wanted prefix =
    (key : Bytes) → prefixed wanted prefix ≡ some key → Lacks key entries

entry_size-ne-missing : (e : Entry) → entry_size e ≢ missing
unfolding entry_size
entry_size-ne-missing e = ground arith

find_entry-none :
    (entries : List Entry) (key : Bytes) → find_entry entries key ≡ none → Lacks key entries
unfolding find_entry
find_entry-none [] key h = tt
find_entry-none (e ∷ es) key h = (ground arith, find_entry-none es key (ground arith))

Lacks-find_entry :
    (entries : List Entry) (key : Bytes) → Lacks key entries → find_entry entries key ≡ none
unfolding find_entry
Lacks-find_entry [] key h = refl
Lacks-find_entry (e ∷ es) key h = rw h.0 (Lacks-find_entry es key h.1)

find_entry-ne-missing : (entries : List Entry) (key : Bytes) → find_entry entries key ≢ some missing
unfolding find_entry
find_entry-ne-missing [] key h = cc h
find_entry-ne-missing (e ∷ es) key h =
    ground (arith, entry_size-ne-missing e, find_entry-ne-missing es key)

-- The first entry of the name decides.
pub find_entry-first :
    (before : List Entry) (e : Entry) (after : List Entry) (key : Bytes)
    → Lacks key before
    → drop_slash e.name ≡ key
    → find_entry (before ++ (e ∷ after)) key ≡ some (entry_size e)
unfolding find_entry
find_entry-first [] e after key h is = ground (arith, same_bytes_refl key)
find_entry-first (b ∷ before) e after key h is = rw h.0 (find_entry-first before e after key h.1 is)

module _ (entries : List Entry) (wanted : Bytes) where
  find_under-none :
      (prefix : Bytes) → find_under entries wanted prefix ≡ none → LacksUnder entries wanted prefix
  unfolding find_under
  find_under-none prefix h key e = find_entry-none entries key (ground (arith, e))

  LacksUnder-find_under :
      (prefix : Bytes) → LacksUnder entries wanted prefix → find_under entries wanted prefix ≡ none
  unfolding find_under
  LacksUnder-find_under prefix h = elim (Option-cases (prefixed wanted prefix)) [
    | inl e ↦ ground (arith, e)
    | inr (key, e) ↦ ground (arith, e, Lacks-find_entry entries key (h key e))
  ]

  find_under-ne-missing : (prefix : Bytes) → find_under entries wanted prefix ≢ some missing
  unfolding find_under
  find_under-ne-missing prefix h = elim (Option-cases (prefixed wanted prefix)) [
    | inl e ↦ ground (arith, e)
    | inr (key, e) ↦ ground (arith, e, find_entry-ne-missing entries key)
  ]

  find_asset-missing :
      (ps : List Bytes)
      → find_asset entries wanted ps ≡ missing
      → All (LacksUnder entries wanted) ps
  unfolding find_asset
  find_asset-missing [] h = tt
  find_asset-missing (p ∷ ps) h = elim (Option-cases (find_under entries wanted p)) [
    | inl e ↦ (find_under-none p e, find_asset-missing ps (ground (arith, e)))
    | inr (s, e) ↦ absurd (ground (arith, e, find_under-ne-missing p))
  ]

  missing-find_asset :
      (ps : List Bytes)
      → All (LacksUnder entries wanted) ps
      → find_asset entries wanted ps ≡ missing
  unfolding find_asset
  missing-find_asset [] h = refl
  missing-find_asset (p ∷ ps) h =
      ground (arith, LacksUnder-find_under p h.0, missing-find_asset ps h.1)

  pub find_asset-missing_iff :
      (find_asset entries wanted prefixes ≡ missing) ↔ All (LacksUnder entries wanted) prefixes
  find_asset-missing_iff = (find_asset-missing prefixes, missing-find_asset prefixes)
