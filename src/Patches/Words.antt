-- ===== src/Patches/Words.antt =====
-- `memcpy` of words to memory, as runtime/src/jni_bridge.c patches code: what is read back, and what stays.
use nfsmw_arm_linux.Prelude.{
  ℕ, zero, suc, ◌+◌, ◌*◌, ◌≤◌, ◌<◌, ◌≡◌, refl, ◌⊎◌, inl, inr, ◌∙◌, ap₂, List, [], ◌∷◌, length,
  arith, All,
}
use nfsmw_arm_linux.Memory.{
  Memory, read32, write32, Outside, write32-Outside, read32-write32, read32-write32_apart,
}
use nfsmw_arm_linux.Patches.{words_at, write_words}

abbrev pub IsWord : ℕ → Type 0
IsWord word = word < 4294967296

pub write_words-Outside :
    (m : Memory) (a : ℕ) (words : List ℕ) (x : ℕ)
    → Outside a (length words * 4) x
    → write_words m a words x ≡ m x
unfolding write_words
write_words-Outside m a [] x out = refl
write_words-Outside m a (word ∷ words) x (inl h) =
    write_words-Outside (write32 m a word) (a + 4) words x (inl (omega arith))
    ∙ write32-Outside m a word x (inl h)
write_words-Outside m a (word ∷ words) x (inr h) =
    write_words-Outside (write32 m a word) (a + 4) words x (inr (omega arith))
    ∙ write32-Outside m a word x (inr (omega arith))

pub read32-write_words_apart :
    (m : Memory) (a : ℕ) (words : List ℕ) (b : ℕ)
    → (b + 4 ≤ a) ⊎ (a + length words * 4 ≤ b)
    → read32 (write_words m a words) b ≡ read32 m b
unfolding write_words
read32-write_words_apart m a [] b h = refl
read32-write_words_apart m a (word ∷ words) b (inl h) =
    read32-write_words_apart (write32 m a word) (a + 4) words b (inl (omega arith))
    ∙ read32-write32_apart m a word b (inl h)
read32-write_words_apart m a (word ∷ words) b (inr h) =
    read32-write_words_apart (write32 m a word) (a + 4) words b (inr (omega arith))
    ∙ read32-write32_apart m a word b (inr (omega arith))

pub words_at-write_words_apart :
    (m : Memory) (a : ℕ) (words : List ℕ) (b count : ℕ)
    → (b + count * 4 ≤ a) ⊎ (a + length words * 4 ≤ b)
    → words_at (write_words m a words) b count ≡ words_at m b count
unfolding words_at
words_at-write_words_apart m a words b zero h = refl
words_at-write_words_apart m a words b (suc count) (inl h) =
    ap₂ ◌∷◌ (read32-write_words_apart m a words b (inl (omega arith)))
      (words_at-write_words_apart m a words (b + 4) count (inl (omega arith)))
words_at-write_words_apart m a words b (suc count) (inr h) =
    ap₂ ◌∷◌ (read32-write_words_apart m a words b (inr h))
      (words_at-write_words_apart m a words (b + 4) count (inr (omega arith)))

pub words_at-write_words :
    (m : Memory) (a : ℕ) (words : List ℕ)
    → All IsWord words
    → words_at (write_words m a words) a (length words) ≡ words
unfolding words_at write_words
words_at-write_words m a [] all = refl
words_at-write_words m a (word ∷ words) (h, all) =
    ap₂ ◌∷◌
      (read32-write_words_apart (write32 m a word) (a + 4) words a (inl (omega arith))
        ∙ read32-write32 m a word h)
      (words_at-write_words (write32 m a word) (a + 4) words all)

-- The first words of a longer run of words.
pub words_at-six :
    (m : Memory) (a w0 w1 w2 w3 w4 w5 w6 : ℕ)
    → words_at m a 7 ≡ w0 ∷ w1 ∷ w2 ∷ w3 ∷ w4 ∷ w5 ∷ w6 ∷ []
    → (words_at m a 6 ≡ w0 ∷ w1 ∷ w2 ∷ w3 ∷ w4 ∷ w5 ∷ []) × (read32 m (a + 24) ≡ w6)
unfolding words_at
words_at-six m a w0 w1 w2 w3 w4 w5 w6 h = ground (arith, h)
