-- ===== src/Compat/Exit/Lifo.antt =====
-- compat_cxa_finalize calls what is due, the newest first, each once.
use nfsmw_arm_linux.Prelude.{
  ℕ, suc, ◌≡◌, refl, sym, ap, ◌∙◌, subst, inl, inr, Bool, true, false, ◌||◌, ◌&&◌, not, some, List,
  [], ◌∷◌, ◌++◌, map, arith, if◌then◌else◌, ◌==◌, length, length-append, get_elem?, set, Bool-cases,
}
use mathlib.Core.List.{append-nil, append_assoc}
use nfsmw_arm_linux.Compat.Exit.{
  Entry, Registry, skipped, call_entry, visit, finalize_below, compat_cxa_finalize,
}

-- An entry is due if it is active and of the library, or if no library is named.
unfoldable pub due : (dso : ℕ) → Entry → Bool
due dso e = e.active && (dso == 0 || e.dso == dso)

-- The entries that are due, in order.
unfoldable pub pending : (dso : ℕ) → List Entry → List Entry
pending dso [] = []
pending dso (e ∷ es) = let rest = pending dso es in if due dso e then e ∷ rest else rest

-- An entry afterwards.
unfoldable pub settled : (dso : ℕ) → Entry → Entry
settled dso e = if due dso e then record e { active = false } else e

-- The slots of a list that is given from the newest entry to the oldest.
unfoldable pub slots : List Entry → List Entry
slots [] = []
slots (z ∷ zs) = slots zs ++ (z ∷ [])

-- The slots from the newest to the oldest.
unfoldable pub newest_first : List Entry → List Entry
newest_first [] = []
newest_first (e ∷ es) = newest_first es ++ (e ∷ [])

-- Destructors do nothing to the registry but register.
abbrev pub OnlyRegister : (Entry → Registry → Registry) → Type 0
OnlyRegister invoke =
    (e : Entry) (r : Registry)
    → (new : List Entry) × (((invoke e r).entries ≡ r.entries ++ new)
        × ((invoke e r).calls ≡ r.calls))

get_elem?-middle :
    (xs : List Entry) (z : Entry) (ys : List Entry)
    → get_elem? (xs ++ (z ∷ ys)) (length xs) ≡ some z
get_elem?-middle [] z ys = refl
get_elem?-middle (x ∷ xs) z ys = get_elem?-middle xs z ys

set-middle :
    (xs : List Entry) (z z' : Entry) (ys : List Entry)
    → set (xs ++ (z ∷ ys)) (length xs) z' ≡ xs ++ (z' ∷ ys)
set-middle [] z z' ys = refl
set-middle (x ∷ xs) z z' ys = ap (λ l. x ∷ l) (set-middle xs z z' ys)

skipped-due : (dso : ℕ) (e : Entry) → skipped dso e ≡ not (due dso e)
unfolding skipped due
skipped-due dso e = ground arith

-- The registry after a loop that started below the newest of some slots.
record Finalized (dso : ℕ) (zs ys new : List Entry) (r r' : Registry) : Type 0 where
  kept : r'.entries ≡ slots (map (settled dso) zs) ++ (ys ++ new)
  called : r'.calls ≡ r.calls ++ pending dso zs

module _ (invoke : Entry → Registry → Registry) (register : OnlyRegister invoke) (dso : ℕ) where
  -- The registry that the destructor of z is called with, when the slots are those of zs, z and ys.
  abbrev pub at_call : (z : Entry) (zs ys calls : List Entry) → Registry
  at_call z zs ys calls = record {
    entries = slots zs ++ (settled dso z ∷ ys);
    calls = calls ++ (z ∷ []);
  }

  -- What the destructors of the entries due among zs register, in the order of the calls.
  unfoldable pub meanwhile : (zs ys calls : List Entry) → List Entry
  meanwhile [] ys calls = []
  meanwhile (z ∷ zs) ys calls =
      let added = (register z (at_call z zs ys calls)).0 in
      let later = meanwhile zs (settled dso z ∷ (ys ++ added)) (calls ++ (z ∷ [])) in
      let idle = meanwhile zs (z ∷ ys) calls in if due dso z then added ++ later else idle

  module _ (z : Entry) (zs ys : List Entry) (r : Registry)
      (is : r.entries ≡ slots zs ++ (z ∷ ys)) where
    abbrev place : ℕ
    place = length (slots zs)

    at_place : get_elem? r.entries place ≡ some z
    at_place = ap (λ l. get_elem? l place) is ∙ get_elem?-middle (slots zs) z ys

    visit-skipped : due dso z ≡ false → visit invoke dso place r ≡ r
    unfolding visit
    visit-skipped e = ground (arith, at_place, skipped-due dso z)

    visit-calls : due dso z ≡ true → visit invoke dso place r ≡ call_entry invoke place z r
    unfolding visit
    visit-calls e = ground (arith, at_place, skipped-due dso z)

    settled-due : due dso z ≡ true → record z { active = false } ≡ settled dso z
    unfolding settled
    settled-due e = rw e refl

    -- The registry that the destructor is called with.
    abbrev deactivated : Registry
    deactivated = record {
      entries = set r.entries place (record z { active = false });
      calls = r.calls ++ (z ∷ []);
    }

    deactivated-at_call : due dso z ≡ true → deactivated ≡ at_call z zs ys r.calls
    deactivated-at_call e =
        let with_entries : List Entry → Registry =
          λ es. record { entries = es; calls = r.calls ++ (z ∷ []) } in
        ap with_entries (
          ap (λ l. set l place (record z { active = false })) is
          ∙ (set-middle (slots zs) z (record z { active = false }) ys
              ∙ ap (λ w. slots zs ++ (w ∷ ys)) (settled-due e)))

    -- What its destructor registers.
    abbrev added : List Entry
    added = (register z (at_call z zs ys r.calls)).0

    visit-due :
        due dso z ≡ true
        → ((visit invoke dso place r).entries ≡ slots zs ++ (settled dso z ∷ (ys ++ added)))
          × ((visit invoke dso place r).calls ≡ r.calls ++ (z ∷ []))
    unfolding call_entry
    visit-due e =
        let (entries, calls) = (register z (at_call z zs ys r.calls)).1 in
        let called = visit-calls e ∙ ap (invoke z) (deactivated-at_call e) in
        (
          ap (λ q. q.entries) called
              ∙ (entries ∙ append_assoc (slots zs) (settled dso z ∷ ys) added),
          ap (λ q. q.calls) called ∙ calls,
        )

  join :
      (ws : List Entry) (w : Entry) (ys older newer : List Entry)
      → ws ++ ((w ∷ (ys ++ older)) ++ newer) ≡ (ws ++ (w ∷ [])) ++ (ys ++ (older ++ newer))
  join ws w ys older newer =
      ap (λ l. ws ++ (w ∷ l)) (append_assoc ys older newer)
      ∙ sym (append_assoc ws (w ∷ []) (ys ++ (older ++ newer)))

  length-slots : (z : Entry) (zs : List Entry) → length (slots (z ∷ zs)) ≡ suc (length (slots zs))
  unfolding slots
  length-slots z zs = omega (arith, length-append (slots zs) (z ∷ []))

  pending-due :
      (z : Entry) (zs : List Entry) → due dso z ≡ true → z ∷ pending dso zs ≡ pending dso (z ∷ zs)
  unfolding pending
  pending-due z zs e = rw e refl

  pending-idle :
      (z : Entry) (zs : List Entry) → due dso z ≡ false → pending dso zs ≡ pending dso (z ∷ zs)
  unfolding pending
  pending-idle z zs e = rw e refl

  settled-idle : (z : Entry) → due dso z ≡ false → z ≡ settled dso z
  unfolding settled
  settled-idle z e = rw e refl

  whole :
      (z : Entry) (zs ys : List Entry) (r : Registry)
      → r.entries ≡ slots (z ∷ zs) ++ ys
      → r.entries ≡ slots zs ++ (z ∷ ys)
  unfolding slots
  whole z zs ys r is = is ∙ append_assoc (slots zs) (z ∷ []) ys

  meanwhile-due :
      (z : Entry) (zs ys calls : List Entry)
      → due dso z ≡ true
      → (register z (at_call z zs ys calls)).0
          ++ meanwhile zs
              (settled dso z ∷ (ys ++ (register z (at_call z zs ys calls)).0))
              (calls ++ (z ∷ []))
        ≡ meanwhile (z ∷ zs) ys calls
  unfolding meanwhile
  meanwhile-due z zs ys calls e = rw e refl

  meanwhile-idle :
      (z : Entry) (zs ys calls : List Entry)
      → due dso z ≡ false
      → meanwhile zs (z ∷ ys) calls ≡ meanwhile (z ∷ zs) ys calls
  unfolding meanwhile
  meanwhile-idle z zs ys calls e = rw e refl

  finalize_below-Finalized :
      (zs ys : List Entry) (r : Registry)
      → r.entries ≡ slots zs ++ ys
      → Finalized dso zs ys
          (meanwhile zs ys r.calls)
          r
          (finalize_below invoke dso (length (slots zs)) r)
  unfolding finalize_below pending slots meanwhile
  finalize_below-Finalized [] ys r is = record {
    kept = is ∙ sym (append-nil ys);
    called = sym (append-nil r.calls);
  }
  finalize_below-Finalized (z ∷ zs) ys r is = elim (Bool-cases (due dso z)) [
    | inl e ↦
        let older = (register z (at_call z zs ys r.calls)).0 in
        let (entries, calls) = visit-due z zs ys r (whole z zs ys r is) e in
        let visited = visit invoke dso (length (slots zs)) r in
        let later = finalize_below-Finalized zs (settled dso z ∷ (ys ++ older)) visited entries in
        let rest = meanwhile zs (settled dso z ∷ (ys ++ older)) in
        subst
          (λ n.
            Finalized dso (z ∷ zs) ys (meanwhile (z ∷ zs) ys r.calls) r
              (finalize_below invoke dso n r))
          (sym (length-slots z zs))
          (record {
            kept =
                later.kept
                ∙ (join (slots (map (settled dso) zs)) (settled dso z) ys older (rest visited.calls)
                    ∙ ap (λ l. (slots (map (settled dso) zs) ++ (settled dso z ∷ [])) ++ (ys ++ l))
                        (ap (λ c. older ++ rest c) calls ∙ meanwhile-due z zs ys r.calls e));
            called =
                later.called
                ∙ (ap (λ l. l ++ pending dso zs) calls
                    ∙ (append_assoc r.calls (z ∷ []) (pending dso zs)
                        ∙ ap (λ l. r.calls ++ l) (pending-due z zs e)));
          })
    | inr e ↦
        let same = visit-skipped z zs ys r (whole z zs ys r is) e in
        let later = finalize_below-Finalized zs (z ∷ ys) r (whole z zs ys r is) in
        subst
          (λ n.
            Finalized dso (z ∷ zs) ys (meanwhile (z ∷ zs) ys r.calls) r
              (finalize_below invoke dso n r))
          (sym (length-slots z zs))
          (subst
            (λ q.
              Finalized dso (z ∷ zs) ys (meanwhile (z ∷ zs) ys r.calls) r
                (finalize_below invoke dso (length (slots zs)) q))
            (sym same)
            (record {
              kept =
                  later.kept
                  ∙ (ap
                        (λ w.
                          slots (map (settled dso) zs)
                          ++ (w ∷ (ys ++ meanwhile zs (z ∷ ys) r.calls)))
                        (settled-idle z e)
                      ∙ (sym (
                            append_assoc (slots (map (settled dso) zs)) (settled dso z ∷ [])
                              (ys ++ meanwhile zs (z ∷ ys) r.calls))
                          ∙ ap
                              (λ l.
                                (slots (map (settled dso) zs) ++ (settled dso z ∷ [])) ++ (ys ++ l))
                              (meanwhile-idle z zs ys r.calls e)));
              called = later.called ∙ ap (λ l. r.calls ++ l) (pending-idle z zs e);
            }))
  ]

-- If destructors do nothing to the registry but register further entries, compat_cxa_finalize calls
-- the entries that are due when it starts, the newest first, leaves these inactive and all others as
-- they were, and behind them keeps exactly what the called destructors registered, each with the registry
-- that it was called with, in the order of the calls, without calling it.
pub compat_cxa_finalize-Finalized :
    (invoke : Entry → Registry → Registry) (dso : ℕ) (zs : List Entry) (r : Registry)
    → (register : OnlyRegister invoke) → r.entries ≡ slots zs
    → ((compat_cxa_finalize invoke dso r).entries
        ≡ slots (map (settled dso) zs) ++ meanwhile invoke register dso zs [] r.calls)
      × ((compat_cxa_finalize invoke dso r).calls ≡ r.calls ++ pending dso zs)
unfolding compat_cxa_finalize
compat_cxa_finalize-Finalized invoke dso zs r register is =
    let done =
      finalize_below-Finalized invoke register dso zs [] r (is ∙ sym (append-nil (slots zs))) in
    subst
      (λ n.
        ((finalize_below invoke dso n r).entries
          ≡ slots (map (settled dso) zs) ++ meanwhile invoke register dso zs [] r.calls)
        × ((finalize_below invoke dso n r).calls ≡ r.calls ++ pending dso zs))
      (sym (ap length is)) (done.kept, done.called)

slots-append : (xs ys : List Entry) → slots (xs ++ ys) ≡ slots ys ++ slots xs
unfolding slots
slots-append [] ys = sym (append-nil (slots ys))
slots-append (x ∷ xs) ys =
    ap (λ l. l ++ (x ∷ [])) (slots-append xs ys) ∙ append_assoc (slots ys) (slots xs) (x ∷ [])

slots-newest_first : (es : List Entry) → slots (newest_first es) ≡ es
unfolding newest_first slots
slots-newest_first [] = refl
slots-newest_first (e ∷ es) =
    slots-append (newest_first es) (e ∷ []) ∙ ap (λ l. e ∷ l) (slots-newest_first es)

pending-settled : (dso : ℕ) (zs : List Entry) → pending dso (map (settled dso) zs) ≡ []
unfolding pending settled due
pending-settled dso [] = refl
pending-settled dso (z ∷ zs) = ground (arith, pending-settled dso zs)

pending-append :
    (dso : ℕ) (ns zs : List Entry) → pending dso (ns ++ zs) ≡ pending dso ns ++ pending dso zs
unfolding pending
pending-append dso [] zs = refl
pending-append dso (n ∷ ns) zs = elim (Bool-cases (due dso n)) [
  | inl e ↦ rw e (ap (λ l. n ∷ l) (pending-append dso ns zs))
  | inr e ↦ rw e (pending-append dso ns zs)
]

-- Where destructors do nothing to the registry but register, a second compat_cxa_finalize for the same
-- library calls none of the entries that the first one met: of what the destructors of the first one
-- registered, it calls the entries that are due, the newest first, and nothing else.
pub compat_cxa_finalize-again :
    (invoke : Entry → Registry → Registry) (dso : ℕ) (zs : List Entry) (r : Registry)
    → (register : OnlyRegister invoke) → r.entries ≡ slots zs
    → (compat_cxa_finalize invoke dso (compat_cxa_finalize invoke dso r)).calls
      ≡ (r.calls ++ pending dso zs)
        ++ pending dso (newest_first (meanwhile invoke register dso zs [] r.calls))
compat_cxa_finalize-again invoke dso zs r register is =
    let newer = newest_first (meanwhile invoke register dso zs [] r.calls) in
    let first = compat_cxa_finalize-Finalized invoke dso zs r register is in
    let met = map (settled dso) zs in
    let left : (compat_cxa_finalize invoke dso r).entries ≡ slots (newer ++ met) =
      first.0
      ∙ (ap (λ l. slots met ++ l)
            (sym (slots-newest_first (meanwhile invoke register dso zs [] r.calls)))
          ∙ sym (slots-append newer met)) in
    let second =
      compat_cxa_finalize-Finalized invoke dso (newer ++ met) (compat_cxa_finalize invoke dso r)
        register left in
    second.1
    ∙ (ap (λ l. l ++ pending dso (newer ++ met)) first.1
        ∙ ap (λ l. (r.calls ++ pending dso zs) ++ l)
            (pending-append dso newer met
              ∙ (ap (λ l. pending dso newer ++ l) (pending-settled dso zs)
                  ∙ append-nil (pending dso newer))))
