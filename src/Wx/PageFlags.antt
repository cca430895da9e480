-- ===== src/Wx/PageFlags.antt =====
-- `modloader_page_flags` of app/modloader/modloader_wx.c: the permissions of one page, from the
-- sections that lie on it. `shdrs` reads the image's section headers by index.
use lk_modloader.Base.{
  ℕ, zero, suc, ◌+◌, ◌-◌, List, Option, Bool, true, false, not, ◌||◌, bit_and, bit_or, ◌==◌, leb,
  if◌then◌else◌, get_elem?, add32,
}
use lk_modloader.Outcome.{Outcome, done, ◌>>=◌, read}
use lk_modloader.Elf.{Elf, Shdr}
use lk_modloader.Kernel.{Kernel}

-- `MODLOADER_MMU_RX`, `MODLOADER_MMU_RW` and `MODLOADER_MMU_RO` of modloader_priv.h.
abbrev pub mmu_rx : Kernel → ℕ
mmu_rx k = k.perm_ro

abbrev pub mmu_rw : Kernel → ℕ
mmu_rw k = k.perm_no_execute

abbrev pub mmu_ro : Kernel → ℕ
mmu_ro k = bit_or k.perm_ro k.perm_no_execute

-- The local variables `exec`, `write` and `alloc`.
pub record Seen : Type 0 where
  pub exec : Bool
  pub write : Bool
  pub alloc : Bool

-- `flags & mask`, as a test.
abbrev pub has_flag : ℕ → ℕ → Bool
has_flag flags mask = not (bit_and flags mask == 0)

-- One section that lies on the page.
unfoldable pub see : Elf → Seen → Shdr → Seen
see elf seen shdr = record {
  exec = if has_flag shdr.sh_flags elf.shf_execinstr then true else seen.exec;
  write = if has_flag shdr.sh_flags elf.shf_write then true else seen.write;
  alloc = true;
}

unfoldable pub choose_flags : Kernel → Seen → ℕ
choose_flags k seen =
    if not seen.alloc
    then mmu_ro k
    else if seen.exec
    then mmu_rx k
    else if seen.write
    then mmu_rw k
    else mmu_ro k

module _ (k : Kernel) (elf : Elf) (load_base page_va : ℕ) where
  -- A section at `offset` has a byte on the page, as the code tests it.
  unfoldable pub on_page : Shdr → ℕ → Bool
  on_page shdr offset =
      let sec_start = add32 load_base offset in
      let sec_end = add32 sec_start shdr.sh_size in
      let page_end = add32 page_va k.page_size in
      not (leb sec_end page_va || leb page_end sec_start)

  module _ (shdrs : ℕ → Option Shdr) (sec_addr : List ℕ) where
    -- One round of the loop.
    unfoldable pub see_section : Shdr → ℕ → Seen → Outcome Seen
    see_section shdr i seen = if not (has_flag shdr.sh_flags elf.shf_alloc) then done seen else do
      offset ← read (get_elem? sec_addr i)
      done (if on_page shdr offset then see elf seen shdr else seen)

    -- The loop from section `i`, with `left` sections to go.
    unfoldable pub see_from : ℕ → ℕ → Seen → Outcome Seen
    see_from zero i seen = done seen
    see_from (suc left) i seen = do
      shdr ← read (shdrs i)
      seen' ← see_section shdr i seen
      see_from left (i + 1) seen'

    unfoldable pub page_flags : ℕ → Outcome ℕ
    page_flags shnum = do
      seen ← see_from (shnum - 1) 1 (record { exec = false; write = false; alloc = false })
      done (choose_flags k seen)
