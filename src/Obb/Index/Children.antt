-- ===== src/Obb/Index/Children.antt =====
-- nfsmw_obb_list returns each child of a directory once.
use nfsmw_arm_linux.Prelude.{
  ℕ, ◌<◌, ◌≡◌, refl, ◌∙◌, ap, sym, subst, inl, inr, Bool, true, false, ◌||◌, Option, none, some,
  List, [], ◌∷◌, ◌++◌, arith, Bool-cases, Option-cases, length, Bytes, same_bytes, same_bytes_comm,
  eq_of_same_bytes, strip_prefix, ltb, ◌*◌, if◌then◌else◌,
}
use nfsmw_arm_linux.Obb.Parse.{Entry, Index}
use nfsmw_arm_linux.Obb.Index.{
  normalize, trim_slashes, component, listed, list_entry, list_entries, list_under, children,
  nfsmw_obb_list,
}
use nfsmw_arm_linux.Obb.Index.Buffer.{list_prefix, nfsmw_obb_list-fits}

-- The entry's name is the prefix, then the component, then nothing or a slash.
unfoldable pub offers : (prefix : Bytes) → Entry → Bytes → Bool
offers prefix entry c = elim (strip_prefix prefix entry.name) [
  | none ↦ false
  | some remainder ↦ same_bytes (component remainder) c
]

unfoldable pub any_offers : (prefix : Bytes) → List Entry → Bytes → Bool
any_offers prefix [] c = false
any_offers prefix (entry ∷ entries) c = offers prefix entry c || any_offers prefix entries c

listed-snoc :
    (c : Bytes) (found : List Bytes) (r : Bytes)
    → listed c (found ++ (r ∷ [])) ≡ (listed c found || same_bytes (component r) c)
unfolding listed
listed-snoc c [] r = ground arith
listed-snoc c (f ∷ found) r = ground (arith, listed-snoc c found r)

-- The results' components are pairwise different.
abbrev pub Distinct : List Bytes → Type 0
Distinct [] = Unit
Distinct (r ∷ rs) = (listed (component r) rs ≡ false) × Distinct rs

Distinct-snoc :
    (found : List Bytes) (r : Bytes)
    → Distinct found
    → listed (component r) found ≡ false
    → Distinct (found ++ (r ∷ []))
unfolding listed
Distinct-snoc [] r d fresh = (refl, tt)
Distinct-snoc (f ∷ found) r d fresh = (
  ground (arith, listed-snoc (component f) found r, same_bytes_comm (component f) (component r)),
  Distinct-snoc found r d.1 (ground arith),
)

-- How one round treats an entry.
record Listed (prefix : Bytes) (entry : Entry) (found found' : List Bytes) : Type 0 where
  distinct : Distinct found → Distinct found'
  members :
      (d : ℕ) (ds : Bytes)
      → listed (d ∷ ds) found' ≡ (listed (d ∷ ds) found || offers prefix entry (d ∷ ds))

module _ (prefix : Bytes) (entry : Entry) (found : List Bytes) where
  list_entry-none : strip_prefix prefix entry.name ≡ none → list_entry prefix entry found ≡ found
  unfolding list_entry
  list_entry-none e = ground (arith, e)

  list_entry-empty :
      (r : Bytes)
      → strip_prefix prefix entry.name ≡ some r
      → component r ≡ []
      → list_entry prefix entry found ≡ found
  unfolding list_entry
  list_entry-empty r e is = ground (arith, e, is)

  list_entry-some :
      (r : Bytes) (c : ℕ) (cs : Bytes)
      → strip_prefix prefix entry.name ≡ some r
      → component r ≡ c ∷ cs
      → list_entry prefix entry found ≡ (if listed (c ∷ cs) found then found else found ++ (r ∷ []))
  unfolding list_entry
  list_entry-some r c cs e is = ground (arith, e, is)

  offers-none : (k : Bytes) → strip_prefix prefix entry.name ≡ none → offers prefix entry k ≡ false
  unfolding offers
  offers-none k e = ground (arith, e)

  offers-some :
      (k r : Bytes)
      → strip_prefix prefix entry.name ≡ some r
      → offers prefix entry k ≡ same_bytes (component r) k
  unfolding offers
  offers-some k r e = ground (arith, e)

  -- A round that adds nothing.
  kept-Listed :
      (d : ℕ) (ds : Bytes)
      → (offers prefix entry (d ∷ ds) ≡ true → listed (d ∷ ds) found ≡ true)
      → listed (d ∷ ds) found ≡ (listed (d ∷ ds) found || offers prefix entry (d ∷ ds))
  kept-Listed d ds h = ground (arith, h)

  remainder-Listed :
      (r k : Bytes)
      → strip_prefix prefix entry.name ≡ some r
      → component r ≡ k
      → Listed prefix entry found (list_entry prefix entry found)
  unfolding same_bytes
  remainder-Listed r [] e is = record {
    distinct = λ d. subst Distinct (sym (list_entry-empty r e is)) d;
    members = λ d ds.
        ap (listed (d ∷ ds)) (list_entry-empty r e is)
        ∙ kept-Listed d ds (ground (arith, is, offers-some (d ∷ ds) r e));
  }
  remainder-Listed r (c ∷ cs) e is = elim (Bool-cases (listed (c ∷ cs) found)) [
    | inl old ↦
        let same = list_entry-some r c cs e is ∙ rw old refl in
        record {
          distinct = λ d. subst Distinct (sym same) d;
          members = λ d ds.
              ap (listed (d ∷ ds)) same
              ∙ kept-Listed d ds (λ o.
                rw
                  (sym (
                    eq_of_same_bytes (c ∷ cs) (d ∷ ds)
                      (ground (arith, is, offers-some (d ∷ ds) r e))))
                  old);
        }
    | inr new ↦
        let added = list_entry-some r c cs e is ∙ rw new refl in
        record {
          distinct = λ d.
              subst Distinct (sym added)
                (Distinct-snoc found r d (ap (λ k. listed k found) is ∙ new));
          members = λ d ds.
              ap (listed (d ∷ ds)) added
              ∙ (listed-snoc (d ∷ ds) found r
                  ∙ ap (λ b. listed (d ∷ ds) found || b) (sym (offers-some (d ∷ ds) r e)));
        }
  ]

  list_entry-Listed : Listed prefix entry found (list_entry prefix entry found)
  list_entry-Listed = elim (Option-cases (strip_prefix prefix entry.name)) [
    | inl e ↦ record {
      distinct = λ d. subst Distinct (sym (list_entry-none e)) d;
      members = λ d ds.
          ap (listed (d ∷ ds)) (list_entry-none e)
          ∙ kept-Listed d ds (ground (arith, offers-none (d ∷ ds) e));
    }
    | inr (r, e) ↦ remainder-Listed r (component r) e refl
  ]

list_entries-Distinct :
    (prefix : Bytes) (entries : List Entry) (found : List Bytes)
    → Distinct found
    → Distinct (list_entries prefix entries found)
unfolding list_entries
list_entries-Distinct prefix [] found d = d
list_entries-Distinct prefix (e ∷ es) found d =
    list_entries-Distinct prefix es (list_entry prefix e found)
      ((list_entry-Listed prefix e found).distinct d)

listed-list_entries :
    (prefix : Bytes) (entries : List Entry) (found : List Bytes) (d : ℕ) (ds : Bytes)
    → listed (d ∷ ds) (list_entries prefix entries found)
      ≡ (listed (d ∷ ds) found || any_offers prefix entries (d ∷ ds))
unfolding list_entries any_offers
listed-list_entries prefix [] found d ds = ground arith
listed-list_entries prefix (e ∷ es) found d ds = ground (
  arith,
  listed-list_entries prefix es (list_entry prefix e found) d ds,
  (list_entry-Listed prefix e found).members d ds,
)

-- If the directory's name has fewer than 4095 bytes, its leading and trailing slashes gone, and
-- `realloc` succeeds, then nfsmw_obb_list returns names with pairwise different first components, and
-- a nonempty name is one of these components exactly if an entry of the index has it after the
-- directory's prefix, up to a slash or the end.
pub nfsmw_obb_list-children :
    (realloc_ok : ℕ → Bool) (index : Index) (path : Option Bytes)
    → length (trim_slashes (normalize path)) < 4095
    → realloc_ok (length index.entries * 4) ≡ true
    → (found : List Bytes) × (index' : Index) × (nfsmw_obb_list realloc_ok index path
        ≡ children found index')
      × Distinct found
      × ((d : ℕ) (ds : Bytes)
          → listed (d ∷ ds) found
            ≡ any_offers (list_prefix (trim_slashes (normalize path))) index.entries (d ∷ ds))
unfolding list_under listed
nfsmw_obb_list-children realloc_ok index path short granted =
    let prefix = list_prefix (trim_slashes (normalize path)) in
    let count = length index.entries in
    (
      list_entries prefix index.entries [],
      record index {
        list_capacity = if ltb index.list_capacity count then count else index.list_capacity;
      },
      nfsmw_obb_list-fits realloc_ok index path short ∙ ground arith,
      list_entries-Distinct prefix index.entries [] tt,
      (λ d ds. listed-list_entries prefix index.entries [] d ds),
    )
