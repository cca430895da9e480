-- ===== src/Kernel.antt =====
-- The services of the LK kernel and the C heap that the loader calls. None of their code is in the
-- repository: the record `Kernel` is a parameter of every definition that uses them. A service takes
-- the state of the kernel and gives the next one back beside its result.
pub mod Resources
pub mod Held
use lk_modloader.Base.{ℕ, ◌+◌, ◌*◌, ◌^◌, ◌%◌, ◌/◌, ◌≤◌, ◌<◌, ◌≡◌, ◌≢◌, Bool, List, Option, bit_and}
use lk_modloader.Status.{Result, Status, ok}
use lk_modloader.Elf.{Name}

-- `struct file_stat`
pub record FileStat : Type 0 where
  pub is_dir : Bool
  pub size : ℕ

pub record Kernel : Type 1 where
  pub Os : Type 0
  -- `PAGE_SIZE`, `ROUNDUP` and the permission flags of the MMU.
  pub page_size : ℕ
  pub roundup : ℕ → ℕ → ℕ
  pub perm_ro : ℕ
  pub perm_no_execute : ℕ
  -- `vmm_alloc(kernel aspace, "modloader", size, &vaddr, 0, VMM_FLAG_VALLOC_SPECIFIC, 0)`: the size,
  -- the address asked for, and the address given.
  pub vmm_alloc : Os → ℕ → ℕ → Result ℕ × Os
  pub vmm_free_region : Os → ℕ → Status × Os
  -- A virtual address to the physical address and the flags.
  pub arch_mmu_query : Os → ℕ → Result (ℕ × ℕ)
  -- Virtual address, physical address, number of pages, flags.
  pub arch_mmu_map : Os → ℕ → ℕ → ℕ → ℕ → Status × Os
  pub arch_sync_cache_range : Os → ℕ → ℕ → Os
  -- The heap: an address, 0 where there is no memory.
  pub malloc : Os → ℕ → ℕ × Os
  pub calloc : Os → ℕ → ℕ → ℕ × Os
  pub free : Os → ℕ → Os
  pub bio_open : Os → Name → Option ℕ × Os
  pub bio_close : Os → ℕ → Os
  pub fs_mount : Os → Name → Name → Name → Status × Os
  pub fs_open_file : Os → Name → Result ℕ × Os
  pub fs_stat_file : Os → ℕ → Result FileStat × Os
  -- The bytes read from an offset, as many as the count that the service returns.
  pub fs_read_file : Os → ℕ → ℕ → ℕ → Result (List ℕ) × Os
  pub fs_close_file : Os → ℕ → Os
  -- A call of the code at an address: the `int` that it returns, as a bit pattern.
  pub call : Os → ℕ → ℕ × Os

-- What the loader relies on of the MMU: a page that has been mapped is found with the permissions it
-- was given, other pages are as before, and neither cache maintenance nor the heap maps anything.
pub record MmuLaws (k : Kernel) : Type 1 where
  pub page_pos : 0 < k.page_size
  pub ro_ne-zero : k.perm_ro ≢ 0
  pub no_execute_ne-zero : k.perm_no_execute ≢ 0
  pub query-map_self :
      (os : k.Os) (va pa flags : ℕ) {os' : k.Os}
      → k.arch_mmu_map os va pa 1 flags ≡ (ok tt, os')
      → (found : ℕ × ℕ) × (k.arch_mmu_query os' va ≡ ok found)
        × (bit_and found.1 k.perm_ro ≡ bit_and flags k.perm_ro)
        × (bit_and found.1 k.perm_no_execute ≡ bit_and flags k.perm_no_execute)
  pub query-map_other :
      (os : k.Os) (va pa flags other : ℕ) {os' : k.Os}
      → k.arch_mmu_map os va pa 1 flags ≡ (ok tt, os')
      → other / k.page_size ≢ va / k.page_size
      → k.arch_mmu_query os' other ≡ k.arch_mmu_query os other
  pub query-sync :
      (os : k.Os) (start len va : ℕ)
      → k.arch_mmu_query (k.arch_sync_cache_range os start len) va ≡ k.arch_mmu_query os va
  pub query-free :
      (os : k.Os) (p va : ℕ) → k.arch_mmu_query (k.free os p) va ≡ k.arch_mmu_query os va

-- What the loader relies on of `ROUNDUP(size, PAGE_SIZE)`: whole pages, in a `size_t`.
pub record PageLaws (k : Kernel) : Type 1 where
  pub page_pos : 0 < k.page_size
  pub roundup_pages : (a : ℕ) → (n : ℕ) × (k.roundup a k.page_size ≡ n * k.page_size)
  pub roundup_small : (a : ℕ) → k.roundup a k.page_size < 2 ^ 32

-- What it relies on of `ROUNDUP(a, b)`: where the sum of its operands does not wrap, nothing is lost, less
-- than `b` is added, and a power of two divides the result.
pub record RoundupLaws (k : Kernel) : Type 1 where
  pub roundup_ge : (a b : ℕ) → 0 < b → a + b ≤ 2 ^ 32 → a ≤ k.roundup a b
  pub roundup_lt : (a b : ℕ) → 0 < b → a + b ≤ 2 ^ 32 → k.roundup a b < a + b
  pub roundup_aligned : (a e : ℕ) → a + 2 ^ e ≤ 2 ^ 32 → k.roundup a (2 ^ e) % 2 ^ e ≡ 0
