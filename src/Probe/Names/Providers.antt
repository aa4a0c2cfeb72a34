-- ===== src/Probe/Names/Providers.antt =====
-- The name lists of symbol_probe.c against the tables of softfp_symbols.c and compat_bridge.c.
use nfsmw_arm_linux.Prelude.{
  ℕ, Bool, true, false, not, ◌&&◌, ◌||◌, some, List, [], ◌∷◌, map, Bytes, codes, same_bytes,
  eq_of_same_bytes, ◌≡◌, ◌≢◌, ◌↔◌, refl, sym, ap, ◌∙◌, Bool-cases, inl, inr,
}
use nfsmw_arm_linux.Compat.Resolve.{Symbol, resolve_in, compat_symbols, nfsmw_compat_resolve}
use nfsmw_arm_linux.Probe.Names.{
  in_list, nfsmw_symbol_requires_softfp, bridge_names, softfp_symbols, nfsmw_softfp_resolve,
}

-- The names that a table answers.
abbrev answered : List Symbol → List Bytes
answered table = map (λ row. row.0) table

module _ (address : Bytes → ℕ) (placed : (object : Bytes) → address object ≢ 0) where
  -- A table answers the names of its rows and no others.
  pub resolve_in-answered :
      (table : List Symbol) (name : Bytes)
      → (in_list name (answered table) ≡ true) ↔ (resolve_in address table name ≢ 0)
  unfolding resolve_in in_list
  resolve_in-answered [] name = (λ e. absurd (cc e), λ ne. absurd (ne refl))
  resolve_in-answered ((symbol, object) ∷ rest) name = elim (Bool-cases (same_bytes name symbol)) [
    | inl e ↦ rw e (λ _. placed object, λ _. refl)
    | inr e ↦ rw e (resolve_in-answered rest name)
  ]

  -- With every bridge function at an address that is not NULL, the names that nfsmw_symbol_requires_softfp
  -- accepts are exactly those that nfsmw_softfp_resolve gives an address.
  pub requires_softfp-resolve :
      (name : Bytes)
      → (nfsmw_symbol_requires_softfp name ≡ true) ↔ (nfsmw_softfp_resolve address name ≢ 0)
  unfolding nfsmw_symbol_requires_softfp nfsmw_softfp_resolve
  requires_softfp-resolve name = resolve_in-answered softfp_symbols name

-- Every name of a list is in another, but for one exception.
abbrev covers : (exception : Bytes) → (others names : List Bytes) → Bool
covers exception others [] = true
covers exception others (name ∷ names) =
    (not (in_list name others) && same_bytes name exception
      || in_list name others && not (same_bytes name exception))
    && covers exception others names

covers-in_list :
    (exception : Bytes) (others names : List Bytes) (name : Bytes)
    → covers exception others names ≡ true
    → in_list name names ≡ true
    → in_list name others ≡ not (same_bytes name exception)
unfolding in_list
covers-in_list exception others [] name covered listed = absurd (cc listed)
covers-in_list exception others (first ∷ names) name covered listed =
    elim (Bool-cases (same_bytes name first)) [
      | inl e ↦ rw (eq_of_same_bytes name first e) (
          here (in_list first others) (same_bytes first exception) (covers exception others names)
            covered)
      | inr e ↦
          covers-in_list exception others names name (and_right _ _ covered)
            (sym (ap (λ b. b || in_list name names) e) ∙ listed)
    ]
  where
    here :
        (found excepted later : Bool)
        → (((not found && excepted) || (found && not excepted)) && later) ≡ true
        → found ≡ not excepted
    here true true later h = absurd (cc h)
    here true false later h = refl
    here false true later h = refl
    here false false later h = absurd (cc h)

    and_right : (left right : Bool) → (left && right) ≡ true → right ≡ true
    and_right true right e = e
    and_right false right e = absurd (cc e)

abbrev lstat : Bytes
lstat = codes "lstat"

bridge_names-covers : covers lstat (answered compat_symbols) bridge_names ≡ true
unfolding in_list same_bytes
bridge_names-covers = refl

-- With every bridge function at an address that is not NULL, each name on the list of
-- nfsmw_symbol_requires_bionic_bridge gets an address from nfsmw_compat_resolve, but for lstat, which gets none.
pub bridge_names-resolve :
    (address : Bytes → ℕ)
    → ((object : Bytes) → address object ≢ 0)
    → (name : Bytes) → in_list name bridge_names ≡ true
    → (nfsmw_compat_resolve address (some name) ≢ 0) ↔ (same_bytes name (codes "lstat") ≡ false)
unfolding nfsmw_compat_resolve
bridge_names-resolve address placed name listed =
    let covered =
      covers-in_list lstat (answered compat_symbols) bridge_names name bridge_names-covers listed in
    let answers = resolve_in-answered address placed compat_symbols name in
    (
      λ resolved. not_true (same_bytes name lstat) (sym covered ∙ answers.1 resolved),
      λ other. answers.0 (covered ∙ ap not other),
    )
  where
    not_true : (b : Bool) → not b ≡ true → b ≡ false
    not_true true e = absurd (cc e)
    not_true false e = refl
