-- ===== src/Memory.antt =====
-- Byte-addressed memory of the little-endian target: the loads and stores that
-- app/modloader/modloader_reloc.c makes through `uint16_t *` and `uint32_t *`, and memcpy and memset.
pub mod Laws
use lk_modloader.Base.{
  ℕ, ◌+◌, ◌*◌, ◌/◌, ◌%◌, ◌^◌, ◌<◌, List, [], ◌∷◌, ◌==◌, if◌then◌else◌, zero, suc, u8,
}

-- A byte for each address.
abbrev pub Memory : Type 0
Memory = ℕ → ℕ

abbrev pub IsBytes : Memory → Type 0
IsBytes m = (a : ℕ) → m a < 256

unfoldable pub write8 : Memory → ℕ → ℕ → Memory
write8 m a v b = if b == a then u8 v else m b

unfoldable pub read16 : Memory → ℕ → ℕ
read16 m a = m a + m (a + 1) * 2 ^ 8

unfoldable pub write16 : Memory → ℕ → ℕ → Memory
unfolding write8
write16 m a v = write8 (write8 m a v) (a + 1) (v / 2 ^ 8)

unfoldable pub read32 : Memory → ℕ → ℕ
unfolding read16
read32 m a = read16 m a + read16 m (a + 2) * 2 ^ 16

unfoldable pub write32 : Memory → ℕ → ℕ → Memory
unfolding write16
write32 m a v = write16 (write16 m a v) (a + 2) (v / 2 ^ 16)

-- `memcpy(a, bytes, length of bytes)`.
unfoldable pub copy_bytes : Memory → ℕ → List ℕ → Memory
unfolding write8
copy_bytes m a [] = m
copy_bytes m a (x ∷ xs) = copy_bytes (write8 m a x) (a + 1) xs

-- `memset(a, 0, n)`.
unfoldable pub zero_bytes : Memory → ℕ → ℕ → Memory
unfolding write8
zero_bytes m a zero = m
zero_bytes m a (suc n) = zero_bytes (write8 m a 0) (a + 1) n
