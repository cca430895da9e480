-- ===== src/Wx.antt =====
-- app/modloader/modloader_wx.c: page permissions after a load, and their check. Addresses and sizes
-- are 32-bit, and their sums wrap. The state of an action here is the state of the kernel.
pub mod PageFlags
pub mod Flags
pub mod Pages
pub mod Enforce
pub mod Ending
use lk_modloader.Base.{
  ℕ, zero, suc, ◌+◌, List, Option, Bool, true, false, not, ◌||◌, bit_and, bit_or, min, ◌==◌, ltb,
  if◌then◌else◌, add32,
}
use lk_modloader.Status.{Result, Status, ok, err, err_not_allowed}
use lk_modloader.Outcome.{Outcome, done, fail, out_of_fuel, of_result}
use lk_modloader.Action.{Action, ◌>>=◌, ◌>>◌, pure, raise, lift, gets, modify}
use lk_modloader.Elf.{Elf, Shdr}
use lk_modloader.Kernel.{Kernel}
use PageFlags.{mmu_rx, mmu_rw, has_flag, page_flags}

-- A service that changes the state of the kernel, as an action.
abbrev pub service : {S A : Type 0} → (S → Result A × S) → Action S A
service f os = (of_result (f os).0, (f os).1)

-- `for (size_t off = 0; off < map_size; off += page_size) body(off);`, from `off`. The fuel bounds the
-- rounds; the sum wraps as `size_t` does.
unfoldable pub for_pages :
    {S : Type 0} → ℕ → ℕ → (ℕ → Action S (Unit {0})) → ℕ → ℕ → Action S (Unit {0})
for_pages page_size map_size body zero off = lift out_of_fuel
for_pages page_size map_size body (suc fuel) off =
    if ltb off map_size
    then (do body off; for_pages page_size map_size body fuel (add32 off page_size))
    else pure tt

module _ (k : Kernel) where
  unfoldable pub remap_page : ℕ → ℕ → Action k.Os (Unit {0})
  remap_page va arch_flags = do
    pa ← gets (λ os. k.arch_mmu_query os va)
    (found, existing) ← lift (of_result pa)
    service (λ os. k.arch_mmu_map os va found 1 arch_flags)

  unfoldable pub wx_flags_ok : ℕ → Bool
  wx_flags_ok flags = has_flag flags k.perm_ro || has_flag flags k.perm_no_execute

  -- Each page of the mapping needs one round, and a page has at least one byte.
  abbrev rounds : ℕ → ℕ
  rounds map_size = map_size + 1

  unfoldable pub split_page : ℕ → ℕ → ℕ → Action k.Os (Unit {0})
  split_page base rx_size off =
      remap_page (add32 base off) (if ltb off rx_size then mmu_rx k else mmu_rw k)

  unfoldable pub apply_wx_split : ℕ → ℕ → ℕ → Action k.Os (Unit {0})
  apply_wx_split base map_size rx_size = do
    let rx_size' = k.roundup (min rx_size map_size) k.page_size
    for_pages k.page_size map_size (split_page base rx_size') (rounds map_size) 0
    modify (λ os. k.arch_sync_cache_range os base map_size)

  module _ (elf : Elf) (shdrs : ℕ → Option Shdr) (shnum : ℕ) (sec_addr : List ℕ) where
    unfoldable pub protect_page : ℕ → ℕ → Action k.Os (Unit {0})
    protect_page base off = do
      let va = add32 base off
      flags ← lift (page_flags k elf base va shdrs sec_addr shnum)
      remap_page va flags

    unfoldable pub apply_wx_sections : ℕ → ℕ → Action k.Os (Unit {0})
    apply_wx_sections base map_size = do
      for_pages k.page_size map_size (protect_page base) (rounds map_size) 0
      modify (λ os. k.arch_sync_cache_range os base map_size)

  -- One round of the check.
  unfoldable pub verify_page : ℕ → ℕ → Action k.Os (Unit {0})
  verify_page base off = do
    answer ← gets (λ os. k.arch_mmu_query os (add32 base off))
    (pa, flags) ← lift (of_result answer)
    if wx_flags_ok flags then pure tt else raise err_not_allowed

  unfoldable pub verify_wx : ℕ → ℕ → Action k.Os (Unit {0})
  verify_wx base map_size = for_pages k.page_size map_size (verify_page base) (rounds map_size) 0
