-- ===== src/Exec.antt =====
-- `modloader_load_exec_blob` of app/modloader/modloader_reloc.c: a prelinked blob. A blob is its bytes;
-- `none` is a null pointer.
use lk_modloader.Base.{ℕ, List, Option, none, some, true, ◌==◌, length}
use lk_modloader.Status.{err_not_valid, err_already_exists}
use lk_modloader.Action.{Action, ◌>>=◌, ◌>>◌, raise, gets, modify, guard, on_error}
use lk_modloader.Memory.{copy_bytes}
use lk_modloader.Kernel.{Kernel}
use lk_modloader.Wx.{apply_wx_split}
use lk_modloader.World.{
  World, modloader_exec, payload_load_vaddr, on_os, call_service, with_os, with_mem, with_module,
  free_region,
}

module _ (k : Kernel) where
  -- What is done in the mapping.
  unfoldable pub fill_exec : List ℕ → ℕ → ℕ → ℕ → Action (World k) (Unit {0})
  fill_exec blob rx_size base map_size = do
    modify (with_mem k (λ mem. copy_bytes mem base blob))
    modify (with_os k (λ os. k.arch_sync_cache_range os base (length blob)))
    on_error (free_region k base) (on_os k (apply_wx_split k base map_size rx_size))

  unfoldable pub load_exec_blob : Option (List ℕ) → ℕ → ℕ → Action (World k) (Unit {0})
  load_exec_blob none entry_vaddr rx_size = raise err_not_valid
  load_exec_blob (some blob) entry_vaddr rx_size = do
    guard (length blob == 0) err_not_valid
    loaded ← gets (λ w. w.current.loaded)
    guard loaded err_already_exists
    let map_size = k.roundup (length blob) k.page_size
    base ← call_service k (λ os. k.vmm_alloc os map_size payload_load_vaddr)
    fill_exec blob rx_size base map_size
    modify (
        with_module k (record {
          loaded = true;
          wx = true;
          kind = modloader_exec;
          base = base;
          size = map_size;
          entry = entry_vaddr;
        }))
