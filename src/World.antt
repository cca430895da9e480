-- ===== src/World.antt =====
-- The static objects of the loader, and the state it runs in: `struct modloader_module` and
-- `modloader_mod` of app/modloader/modloader_priv.h and modloader_reloc.c, beside the tables of the
-- other files, the memory, and the kernel.
use lk_modloader.Base.{ℕ, Bool, false}
use lk_modloader.Status.{Result}
use lk_modloader.Outcome.{done, of_result}
use lk_modloader.Action.{Action}
use lk_modloader.Memory.{Memory}
use lk_modloader.Kernel.{Kernel}
use lk_modloader.Export.{Exports, initial_exports}
use lk_modloader.Symbols.{ModuleExports, symbols_clear}

-- `enum modloader_kind`
pub data ModuleKind : Type 0 where
  modloader_none modloader_exec modloader_rel : ModuleKind

-- `struct modloader_module`
pub record Module : Type 0 where
  pub loaded : Bool
  pub wx : Bool
  pub kind : ModuleKind
  pub base : ℕ
  pub size : ℕ
  pub entry : ℕ

-- All bytes 0, as at start-up and after `memset(&modloader_mod, 0, sizeof(modloader_mod))`.
abbrev pub no_module : Module
no_module = record {
  loaded = false;
  wx = false;
  kind = modloader_none;
  base = 0;
  size = 0;
  entry = 0;
}

-- `PAYLOAD_LOAD_VADDR`
abbrev pub payload_load_vaddr : ℕ
payload_load_vaddr = 0x7f108000

pub record World (k : Kernel) : Type 0 where
  pub os : k.Os
  pub mem : Memory
  -- `modloader_mod`
  pub current : Module
  pub exports : Exports
  pub module_exports : ModuleExports
  pub v9p_mounted : Bool

module _ (k : Kernel) where
  -- An action on the state of the kernel, or on the index of symbols.
  unfoldable pub on_os : {A : Type 0} → Action k.Os A → Action (World k) A
  on_os m w = ((m w.os).0, record w { os = (m w.os).1 })

  unfoldable pub on_symbols : {A : Type 0} → Action ModuleExports A → Action (World k) A
  on_symbols m w = ((m w.module_exports).0, record w { module_exports = (m w.module_exports).1 })

  -- An action on the memory.
  unfoldable pub on_mem : {A : Type 0} → Action Memory A → Action (World k) A
  on_mem m w = ((m w.mem).0, record w { mem = (m w.mem).1 })

  -- A service that changes the state of the kernel and may fail, and one that gives a plain value.
  unfoldable pub call_service : {A : Type 0} → (k.Os → Result A × k.Os) → Action (World k) A
  unfolding on_os
  call_service f = on_os (λ os. (of_result (f os).0, (f os).1))

  unfoldable pub ask : {A : Type 0} → (k.Os → A × k.Os) → Action (World k) A
  unfolding on_os
  ask f = on_os (λ os. (done (f os).0, (f os).1))

  abbrev pub with_os : (k.Os → k.Os) → World k → World k
  with_os f w = record w { os = f w.os }

  abbrev pub with_mem : (Memory → Memory) → World k → World k
  with_mem f w = record w { mem = f w.mem }

  abbrev pub with_module : Module → World k → World k
  with_module m w = record w { current = m }

  -- `modloader_symbols_clear()`
  abbrev pub clear_index : World k → World k
  clear_index w = record w { module_exports = symbols_clear }

  -- `vmm_free_region(aspace, base)` where the code does not look at what it returns.
  abbrev pub free_region : ℕ → World k → World k
  free_region base = with_os (λ os. (k.vmm_free_region os base).1)

  -- `free(p)`
  abbrev pub free_heap : ℕ → World k → World k
  free_heap p = with_os (λ os. k.free os p)

  -- The state at start-up, over a state of the kernel and a memory.
  abbrev pub start_up : k.Os → Memory → World k
  start_up os mem = record {
    os = os;
    mem = mem;
    current = no_module;
    exports = initial_exports;
    module_exports = symbols_clear;
    v9p_mounted = false;
  }
