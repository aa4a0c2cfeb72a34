-- ===== src/Obb/Parse/Search.antt =====
-- The search of nfsmw_obb_open for the end-of-directory record.
use nfsmw_arm_linux.Prelude.{
  ℕ, zero, suc, ◌≤◌, ◌<◌, ◌≡◌, ◌≢◌, ◌↔◌, inl, inr, false, some, arith, Bool-cases, Bytes, ◌==◌,
}
use nfsmw_arm_linux.Obb.Parse.{find_eocd, read_u32, eocd_signature}

-- No signature stands in a range of offsets.
abbrev pub NoSignature : Bytes → ℕ → ℕ → Type 0
NoSignature tail i n = (j : ℕ) → i < j → j ≤ n → read_u32 tail j ≢ eocd_signature

pub find_eocd-found :
    (tail : Bytes) (n i : ℕ)
    → find_eocd tail n ≡ some i
    → (i ≤ n) × (read_u32 tail i ≡ eocd_signature) × NoSignature tail i n
unfolding find_eocd
find_eocd-found tail zero i h = (ground arith, ground arith, λ j above below. ground arith)
find_eocd-found tail (suc n) i h = elim (Bool-cases (read_u32 tail (suc n) == eocd_signature)) [
  | inl e ↦ (ground arith, ground arith, λ j above below. ground arith)
  | inr e ↦
      let rest = find_eocd-found tail n i (ground (arith, e)) in
      (ground arith, rest.1, λ j above below. ground (arith, rest.2 j above))
]

lt-suc : (i n : ℕ) → i ≤ suc n → (i == suc n) ≡ false → i ≤ n
lt-suc i n le e = ground arith

found-find_eocd :
    (tail : Bytes) (n i : ℕ)
    → i ≤ n
    → read_u32 tail i ≡ eocd_signature
    → NoSignature tail i n
    → find_eocd tail n ≡ some i
unfolding find_eocd
found-find_eocd tail zero i le at none_above = ground arith
found-find_eocd tail (suc n) i le at none_above = elim (Bool-cases (i == suc n)) [
  | inl e ↦ ground (arith, e)
  | inr e ↦
      let below = lt-suc i n le e in
      ground (
        arith,
        none_above (suc n) (ground (arith, below)) (ground arith),
        found-find_eocd tail n i below at (λ j above le'. none_above j above (ground (arith, le'))),
      )
]

-- The search for the end-of-directory record stops at an offset exactly if the signature stands there
-- and at no higher offset that it looks at.
pub find_eocd-highest_iff :
    (tail : Bytes) (n i : ℕ)
    → (find_eocd tail n ≡ some i)
      ↔ ((i ≤ n) × (read_u32 tail i ≡ eocd_signature) × NoSignature tail i n)
find_eocd-highest_iff tail n i =
    (find_eocd-found tail n i, (λ h. found-find_eocd tail n i h.0 h.1 h.2))
