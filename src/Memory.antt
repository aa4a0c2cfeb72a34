-- ===== src/Memory.antt =====
-- Byte-addressed memory of the process, and the C accesses to it.
use nfsmw_arm_linux.Prelude.{
  ℕ, zero, suc, ◌+◌, ◌-◌, ◌*◌, ◌/◌, ◌%◌, ◌^◌, ◌≤◌, ◌<◌, ◌≡◌, ◌⊎◌, ◌&&◌, Option, none, some, List,
  [], ◌∷◌, arith, ltb, leb, ◌==◌, if◌then◌else◌,
}
use mathlib.Core.Option

abbrev pub Memory : Type 0
Memory = ℕ → ℕ

abbrev pub read16 : Memory → ℕ → ℕ
read16 m a = m a + m (a + 1) * 256

abbrev pub read32 : Memory → ℕ → ℕ
read32 m a = m a + m (a + 1) * 256 + m (a + 2) * 65536 + m (a + 3) * 16777216

-- A little-endian store of a 32-bit word.
unfoldable pub write32 : Memory → ℕ → ℕ → Memory
write32 m a v x =
    if x == a
    then v % 256
    else if x == a + 1
    then v / 256 % 256
    else if x == a + 2
    then v / 65536 % 256
    else if x == a + 3
    then v / 16777216 % 256
    else m x

-- `memcpy(to, source + from, length)`, where source is another memory (a file mapping).
unfoldable pub copy_in : Memory → ℕ → Memory → ℕ → ℕ → Memory
copy_in m to source from length x =
    if leb to x && ltb x (to + length) then source (from + (x - to)) else m x

-- Fresh anonymous pages read as zero.
unfoldable pub zero_fill : Memory → ℕ → ℕ → Memory
zero_fill m start size x = if leb start x && ltb x (start + size) then 0 else m x

-- The string at an address, if a NUL stands within the limit.
unfoldable pub c_string : Memory → ℕ → ℕ → Option (List ℕ)
c_string m a zero = none
c_string m a (suc n) =
    if m a == 0 then some [] else Option.map (λ cs. m a ∷ cs) (c_string m (a + 1) n)

abbrev pub Outside : ℕ → ℕ → ℕ → Type 0
Outside start size x = (x < start) ⊎ (start + size ≤ x)

pub write32-Outside : (m : Memory) (a v x : ℕ) → Outside a 4 x → write32 m a v x ≡ m x
unfolding write32
write32-Outside m a v x h = ground arith

pub copy_in-Outside :
    (m : Memory) (to : ℕ) (source : Memory) (from length x : ℕ)
    → Outside to length x
    → copy_in m to source from length x ≡ m x
unfolding copy_in
copy_in-Outside m to source from length x h = ground arith

pub zero_fill-Outside :
    (m : Memory) (start size x : ℕ) → Outside start size x → zero_fill m start size x ≡ m x
unfolding zero_fill
zero_fill-Outside m start size x h = ground arith

pub read32-write32 : (m : Memory) (a v : ℕ) → v < 4294967296 → read32 (write32 m a v) a ≡ v
unfolding write32
read32-write32 m a v h = ground arith

pub read32-write32_apart :
    (m : Memory) (a v b : ℕ) → (b + 4 ≤ a) ⊎ (a + 4 ≤ b) → read32 (write32 m a v) b ≡ read32 m b
unfolding write32
read32-write32_apart m a v b h = ground arith

-- Every cell holds a byte.
abbrev pub IsBytes : Memory → Type 0
IsBytes m = (a : ℕ) → m a < 256

pub read32-lt : (m : Memory) (a : ℕ) → IsBytes m → read32 m a < 4294967296
read32-lt m a b = omega (arith, b a, b (a + 1), b (a + 2), b (a + 3))

-- Memory whose words are listed, with zeros beyond.
abbrev word_at : List ℕ → ℕ → ℕ
word_at [] i = 0
word_at (w ∷ ws) zero = w
word_at (w ∷ ws) (suc i) = word_at ws i

unfoldable pub byte_at : List ℕ → Memory
byte_at ws a = word_at ws (a / 4) / 256 ^ (a % 4) % 256
