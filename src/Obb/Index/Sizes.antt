-- ===== src/Obb/Index/Sizes.antt =====
-- nfsmw_obb_asset_size finds what the index holds under its three prefixes.
use nfsmw_arm_linux.Prelude.{
  ℕ, ◌+◌, ◌<◌, ◌≡◌, refl, ◌∙◌, ap, ◌≢◌, ◌↔◌, inl, inr, Bool-cases, eq_of_same_bytes, false, Option,
  none, some, sym, subst, strip_prefix, strip_prefix-append, strip_prefix-some, codes, List, [],
  ◌∷◌, ◌++◌, All, arith, Option-cases, length, length-append, Bytes, same_bytes, same_bytes_refl,
}
use nfsmw_arm_linux.Obb.Parse.{Entry, Index, name_limit, slash}
use nfsmw_arm_linux.Obb.Index.{
  normalize, trim_slashes, drop_slash, missing, entry_size, prefixed, prefixes, find_under,
  find_asset, nfsmw_obb_asset_size,
}
use nfsmw_arm_linux.Obb.Index.Slashes.{
  slashes, BeginsPlain, EndsPlain, EndsPlain-append, skip_slashes-append, trim_slashes-append,
  drop_slash-plain, drop_slash-slash, drop_slash-cases, length-slashes,
}
use nfsmw_arm_linux.Obb.Index.Lookup.{Lacks, LacksUnder, find_entry-first, find_asset-missing_iff}

-- No entry is called that, with or without one slash at its end.
abbrev pub Absent : List Entry → Bytes → Type 0
Absent entries key = All (λ e. (e.name ≢ key) × (e.name ≢ key ++ (slash ∷ []))) entries

ne_of_same_bytes : (xs ys : Bytes) → same_bytes xs ys ≡ false → xs ≢ ys
ne_of_same_bytes xs ys h is = cc (h, ap (λ l. same_bytes l ys) is, same_bytes_refl ys)

Lacks-Absent :
    (entries : List Entry) (key : Bytes) → EndsPlain key → Lacks key entries → Absent entries key
Lacks-Absent [] key plain h = tt
Lacks-Absent (e ∷ es) key plain h = (
  (
    (λ is.
        ne_of_same_bytes (drop_slash e.name) key h.0
          (ap drop_slash is ∙ drop_slash-plain key plain)),
    (λ is. ne_of_same_bytes (drop_slash e.name) key h.0 (ap drop_slash is ∙ drop_slash-slash key)),
  ),
  Lacks-Absent es key plain h.1,
)

Absent-Lacks : (entries : List Entry) (key : Bytes) → Absent entries key → Lacks key entries
Absent-Lacks [] key h = tt
Absent-Lacks (e ∷ es) key h = (
  elim (Bool-cases (same_bytes (drop_slash e.name) key)) [
    | inr apart ↦ apart
    | inl same ↦
        let is = eq_of_same_bytes (drop_slash e.name) key same in
        elim (drop_slash-cases e.name) [
          | inl at ↦ absurd (h.0.0 (at ∙ is))
          | inr at ↦ absurd (h.0.1 (at ∙ ap (λ l. l ++ (slash ∷ [])) is))
        ]
  ],
  Absent-Lacks es key h.1,
)

key_eq : {k key : Bytes} → some k ≡ some key → k ≡ key
key_eq e = cc e

none-ne-key : {key : Bytes} → none ≢ some key
none-ne-key e = cc e

module _ (entries : List Entry) (p : Bytes) (n : ℕ) (plain : EndsPlain p) where
  prefixed-top : length (p ++ slashes n) < name_limit → prefixed (p ++ slashes n) [] ≡ some p
  unfolding prefixed
  prefixed-top short = ground (arith, trim_slashes-append p n plain)

  prefixed-under :
      (c : ℕ) (cs : Bytes)
      → length (c ∷ cs) + length (p ++ slashes n) < name_limit
      → strip_prefix (c ∷ cs) (p ++ slashes n) ≡ none
      → prefixed (p ++ slashes n) (c ∷ cs) ≡ some ((c ∷ cs) ++ p)
  unfolding prefixed
  prefixed-under c cs short e = ground (arith, e, trim_slashes-append p n plain)

  prefixed-skipped :
      (c : ℕ) (cs rest : Bytes)
      → strip_prefix (c ∷ cs) (p ++ slashes n) ≡ some rest
      → prefixed (p ++ slashes n) (c ∷ cs) ≡ none
  unfolding prefixed
  prefixed-skipped c cs rest e = ground (arith, e)

  LacksUnder-top :
      length (p ++ slashes n) < name_limit
      → LacksUnder entries (p ++ slashes n) [] ↔ Absent entries p
  LacksUnder-top short = (
    (λ h. Lacks-Absent entries p plain (h p (prefixed-top short))),
    (λ h key e.
        subst (λ k. Lacks k entries) (key_eq (sym (prefixed-top short) ∙ e))
          (Absent-Lacks entries p h)),
  )

  LacksUnder-prefix :
      (c : ℕ) (cs : Bytes)
      → length (c ∷ cs) + length (p ++ slashes n) < name_limit
      → LacksUnder entries (p ++ slashes n) (c ∷ cs)
        ↔ (((rest : Bytes) → p ++ slashes n ≢ (c ∷ cs) ++ rest) → Absent entries ((c ∷ cs) ++ p))
  LacksUnder-prefix c cs short = elim (Option-cases (strip_prefix (c ∷ cs) (p ++ slashes n))) [
    | inl e ↦
        let is = prefixed-under c cs short e in
        (
          (λ h apart.
              Lacks-Absent entries ((c ∷ cs) ++ p) (EndsPlain-append (c ∷ cs) p plain)
                (h ((c ∷ cs) ++ p) is)),
          (λ h key e'.
              subst (λ k. Lacks k entries) (key_eq (sym is ∙ e'))
                (Absent-Lacks entries ((c ∷ cs) ++ p) (
                  h (λ rest at. none-ne-key (
                    sym e
                    ∙ (ap (strip_prefix (c ∷ cs)) at ∙ strip_prefix-append (c ∷ cs) rest)))))),
        )
    | inr (rest, e) ↦ (
      (λ h apart. absurd (apart rest (strip_prefix-some (c ∷ cs) (p ++ slashes n) e))),
      (λ h key e'. absurd (none-ne-key (sym (prefixed-skipped c cs rest e) ∙ e'))),
    )
  ]

nfsmw_obb_asset_size-find_asset :
    (index : Index) (m n c : ℕ) (cs : Bytes)
    → c ≢ slash
    → nfsmw_obb_asset_size index (some (slashes m ++ ((c ∷ cs) ++ slashes n)))
      ≡ find_asset index.entries ((c ∷ cs) ++ slashes n) prefixes
unfolding nfsmw_obb_asset_size normalize
nfsmw_obb_asset_size-find_asset index m n c cs begins =
    ap (λ w. find_asset index.entries w prefixes) (skip_slashes-append m c (cs ++ slashes n) begins)

-- For a path that is m slashes, a name p that neither begins nor ends with a slash, and n slashes,
-- with fewer than 4083 bytes in p and the n slashes, nfsmw_obb_asset_size returns -2 exactly if the
-- index has no entry called p, none called published/p unless the path without its first slashes
-- begins with published/, and none called published.1x/p unless it begins with published.1x/, each
-- with or without one slash at the end.
pub nfsmw_obb_asset_size-missing_iff :
    (index : Index) (m n : ℕ) (p : Bytes)
    → BeginsPlain p
    → EndsPlain p
    → length p + n < 4083
    → (nfsmw_obb_asset_size index (some (slashes m ++ (p ++ slashes n))) ≡ missing) ↔ (
        Absent index.entries p
        × (((rest : Bytes) → p ++ slashes n ≢ codes "published/" ++ rest)
            → Absent index.entries (codes "published/" ++ p))
        × (((rest : Bytes) → p ++ slashes n ≢ codes "published.1x/" ++ rest)
            → Absent index.entries (codes "published.1x/" ++ p)))
nfsmw_obb_asset_size-missing_iff index m n [] begins ends short = absurd begins
nfsmw_obb_asset_size-missing_iff index m n (c ∷ cs) begins ends short =
    let p = c ∷ cs in
    let wanted = p ++ slashes n in
    let is = nfsmw_obb_asset_size-find_asset index m n c cs begins in
    let all = find_asset-missing_iff index.entries wanted in
    let size : length wanted ≡ length p + n =
      length-append p (slashes n) ∙ ap (λ k. length p + k) (length-slashes n) in
    let top = LacksUnder-top index.entries p n ends (omega (arith, size, short)) in
    let first =
      LacksUnder-prefix index.entries p n ends (b'p') (codes "ublished/")
        (omega (arith, size, short)) in
    let second =
      LacksUnder-prefix index.entries p n ends (b'p') (codes "ublished.1x/")
        (omega (arith, size, short)) in
    (
      (λ h.
          let lacks = all.0 (sym is ∙ h) in
          (top.0 lacks.0, first.0 lacks.1.0, second.0 lacks.1.1.0)),
      (λ h. is ∙ all.1 (top.1 h.0, (first.1 h.1, (second.1 h.2, tt)))),
    )

-- For a path shorter than NAME_LIMIT once its leading slashes are gone, the first entry of that name
-- (trailing slashes of the path and one of the entry apart) gives the result: its size, or -1 for a
-- directory.
pub nfsmw_obb_asset_size-first :
    (index : Index) (path : Option Bytes) (before : List Entry) (e : Entry) (after : List Entry)
    → length (normalize path) < name_limit
    → index.entries ≡ before ++ (e ∷ after)
    → Lacks (drop_slash e.name) before
    → trim_slashes (normalize path) ≡ drop_slash e.name
    → nfsmw_obb_asset_size index path ≡ entry_size e
unfolding nfsmw_obb_asset_size find_asset find_under prefixed
nfsmw_obb_asset_size-first index path before e after short split none_before is =
    ground (arith, find_entry-first before e after (drop_slash e.name) none_before refl)
