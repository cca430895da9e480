-- ===== src/Calls.antt =====
-- The calls that a client makes of the loader, in any order and with any arguments: the operations of
-- app/modloader/modloader.c, the two that change the export table, and the shell command.
pub mod Loads
pub mod Commands
pub mod Consistent
pub mod Ending
use lk_modloader.Base.{ℕ, ◌≡◌, List, Option}
use lk_modloader.Outcome.{of_result}
use lk_modloader.Action.{Action}
use lk_modloader.Elf.{Elf, Name}
use lk_modloader.Kernel.{Kernel}
use lk_modloader.Memory.{Memory}
use lk_modloader.Export.{export_register, export_unregister}
use lk_modloader.World.{World, start_up}
use lk_modloader.Api.{Payloads, load_image, load_uri, run, unload, wx_verify}
use lk_modloader.Shell.{cmd_modtest}

module _ (k : Kernel) where
  -- Register and unregister on the table of the state.
  unfoldable pub register_call : ℕ → Option Name → ℕ → Action (World k) (Unit {0})
  register_call add_addr name addr w =
      let r = export_register add_addr name addr w.exports in
      (of_result r.0, record w { exports = r.1 })

  unfoldable pub unregister_call : Option Name → Action (World k) (Unit {0})
  unregister_call name w =
      let r = export_unregister name w.exports in (of_result r.0, record w { exports = r.1 })

module _ (k : Kernel) (elf : Elf) (add_addr : ℕ) (p : Payloads) where
  -- One call, however it ends.
  pub data Step (w w' : World k) : Type 0 where
    load_images : (image flags : ℕ) → w' ≡ (load_image k elf add_addr p image flags w).1 → Step w w'
    load_uris :
        (uri : Option Name) (flags : ℕ) → w' ≡ (load_uri k elf add_addr p uri flags w).1 → Step w w'
    runs : w' ≡ (run k w).1 → Step w w'
    unloads : w' ≡ (unload k w).1 → Step w w'
    verifies : w' ≡ (wx_verify k w).1 → Step w w'
    registers :
        (name : Option Name) (addr : ℕ) → w' ≡ (register_call k add_addr name addr w).1 → Step w w'
    unregisters : (name : Option Name) → w' ≡ (unregister_call k name w).1 → Step w w'
    commands : (argv : List Name) → w' ≡ (cmd_modtest k elf add_addr p argv w).1 → Step w w'

  -- The states that calls lead to from start-up.
  pub data Reachable : World k → Type 0 where
    starts : (os : k.Os) (mem : Memory) → Reachable (start_up k os mem)
    steps : {w w' : World k} → Reachable w → Step w w' → Reachable w'
