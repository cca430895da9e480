-- ===== src/Wx/Flags.antt =====
-- The permissions that a load gives never allow both writing and execution.
use lk_modloader.Base.{ℕ, ◌-◌, ◌≡◌, List, Option, true, false, arith, and_self, and-or_left}
use lk_modloader.Outcome.{done, >>=-eq-done}
use lk_modloader.Elf.{Elf, Shdr}
use lk_modloader.Kernel.{Kernel, MmuLaws}
use lk_modloader.Wx.{wx_flags_ok}
use lk_modloader.Wx.PageFlags.{mmu_rx, mmu_rw, mmu_ro, choose_flags, see_from, page_flags, Seen}

module _ (k : Kernel) (laws : MmuLaws k) where
  pub rx_ok : wx_flags_ok k (mmu_rx k) ≡ true
  unfolding wx_flags_ok
  rx_ok = ground (arith, and_self k.perm_ro, laws.ro_ne-zero)

  pub rw_ok : wx_flags_ok k (mmu_rw k) ≡ true
  unfolding wx_flags_ok
  rw_ok = ground (arith, and_self k.perm_no_execute, laws.no_execute_ne-zero)

  pub ro_ok : wx_flags_ok k (mmu_ro k) ≡ true
  unfolding wx_flags_ok
  ro_ok = ground (arith, and-or_left k.perm_ro k.perm_no_execute, laws.ro_ne-zero)

  pub choose_flags_ok : (seen : Seen) → wx_flags_ok k (choose_flags k seen) ≡ true
  unfolding choose_flags
  choose_flags_ok seen = ground (arith, rx_ok, rw_ok, ro_ok)

  -- For a kernel that keeps the MMU laws: whatever sections lie on a page, permissions that
  -- page_flags returns pass the check that no page is both writable and executable.
  pub page_flags_ok :
      (elf : Elf) (base va : ℕ) (shdrs : ℕ → Option Shdr) (sec_addr : List ℕ) (shnum : ℕ)
      {flags : ℕ}
      → page_flags k elf base va shdrs sec_addr shnum ≡ done flags
      → wx_flags_ok k flags ≡ true
  unfolding page_flags
  page_flags_ok elf base va shdrs sec_addr shnum h =
      let seen =
        >>=-eq-done
          (see_from k elf base va shdrs sec_addr (shnum - 1) 1
            (record { exec = false; write = false; alloc = false }))
          (λ s. done (choose_flags k s)) h in
      ground (arith, seen.2, choose_flags_ok seen.0)
