-- ===== src/Memory/Laws.antt =====
-- What is read back after a store, and what a store leaves alone.
use lk_modloader.Base.{
  ℕ, ◌+◌, ◌^◌, ◌<◌, ◌≤◌, ◌≡◌, ◌⊎◌, refl, arith, List, [], ◌∷◌, zero, suc, length, u16, u32,
}
use lk_modloader.Memory.{
  Memory, IsBytes, write8, read16, write16, read32, write32, copy_bytes, zero_bytes,
}

-- `b` is none of the `n` addresses from `a`.
abbrev pub Outside : ℕ → ℕ → ℕ → Type 0
Outside a n b = (b < a) ⊎ (a + n ≤ b)

pub write16-frame : (m : Memory) (a v b : ℕ) → Outside a 2 b → write16 m a v b ≡ m b
unfolding write16
write16-frame m a v b h = ground arith

pub write32-frame : (m : Memory) (a v b : ℕ) → Outside a 4 b → write32 m a v b ≡ m b
unfolding write32
write32-frame m a v b h = ground arith

pub read16-write16 : (m : Memory) (a v : ℕ) → read16 (write16 m a v) a ≡ u16 v
unfolding read16 write16
read16-write16 m a v = ground arith

pub read32-write32 : (m : Memory) (a v : ℕ) → read32 (write32 m a v) a ≡ u32 v
unfolding read32 write32
read32-write32 m a v = ground arith

-- The two halfwords of an instruction, stored one after the other.
pub read16-write16_pair :
    (m : Memory) (a v w : ℕ)
    → (read16 (write16 (write16 m a v) (a + 2) w) a ≡ u16 v)
      × (read16 (write16 (write16 m a v) (a + 2) w) (a + 2) ≡ u16 w)
unfolding read16 write16
read16-write16_pair m a v w = (ground arith, ground arith)

pub read16-lt : (m : Memory) (a : ℕ) → IsBytes m → read16 m a < 2 ^ 16
unfolding read16
read16-lt m a h = ground (arith, h a, h (a + 1))

pub read32-lt : (m : Memory) (a : ℕ) → IsBytes m → read32 m a < 2 ^ 32
unfolding read32
read32-lt m a h = ground (arith, h a, h (a + 1), h (a + 2), h (a + 2 + 1))

pub write16-IsBytes : (m : Memory) (a v : ℕ) → IsBytes m → IsBytes (write16 m a v)
unfolding write16
write16-IsBytes m a v h b = ground (arith, h b)

pub write32-IsBytes : (m : Memory) (a v : ℕ) → IsBytes m → IsBytes (write32 m a v)
unfolding write32
write32-IsBytes m a v h b = ground (arith, h b)

pub copy_bytes-frame :
    (m : Memory) (a : ℕ) (xs : List ℕ) (b : ℕ) → Outside a (length xs) b → copy_bytes m a xs b ≡ m b
unfolding copy_bytes
copy_bytes-frame m a [] b h = refl
copy_bytes-frame m a (x ∷ xs) b h = ground (arith, copy_bytes-frame (write8 m a x) (a + 1) xs b)

pub zero_bytes-frame : (m : Memory) (a n b : ℕ) → Outside a n b → zero_bytes m a n b ≡ m b
unfolding zero_bytes
zero_bytes-frame m a zero b h = refl
zero_bytes-frame m a (suc n) b h = ground (arith, zero_bytes-frame (write8 m a 0) (a + 1) n b)
