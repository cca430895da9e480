-- ===== src/Tests/CallCases.antt =====
-- The theorems on sequences of calls, on the shell command and on what is held, at a small prelinked
-- payload.
use lk_modloader.Base.{◌≡◌, ◌⊎◌, refl, List, [], ◌∷◌, some, none, true, false, str_eq}
use lk_modloader.Outcome.{done}
use lk_modloader.Action.{◌>>=◌}
use lk_modloader.Elf.{Name}
use lk_modloader.Memory.{copy_bytes}
use lk_modloader.Export.{initial_exports}
use lk_modloader.Export.Directory.{
  TableCall, registers, unregisters, looks_up, run_table, run_directory, empty_directory,
}
use lk_modloader.Export.Refines.{table_refines}
use lk_modloader.Kernel.Resources.{same, Agrees}
use lk_modloader.Wx.{for_pages, remap_page, split_page, apply_wx_split}
use lk_modloader.Exec.{fill_exec, load_exec_blob}
use lk_modloader.World.{World, start_up, no_module, on_os, call_service}
use lk_modloader.Api.{Payloads, load_embedded, load_image, load_uri, parse_embed_uri, unload}
use lk_modloader.Load.Released.{unload-load_uri}
use lk_modloader.Shell.{word_load, subcommand, exit_ok, exit_error, exit_code, perform, cmd_modtest}
use lk_modloader.Shell.Exits.{modtest_exit}
use lk_modloader.Calls.{Step, Reachable, register_call}
use lk_modloader.Calls as Calls
use lk_modloader.Calls.Consistent.{IsConsistent, Reachable-IsConsistent}
use lk_modloader.Calls.Ending.{AllEnd, calls_end}
use lk_modloader.Tests.Samples.{small_elf, small_name}
use lk_modloader.Tests.Counting.{
  counting_kernel, nothing_held, counting_kernel-ResourceLaws, counting_kernel-PageLaws,
}

abbrev exec_payloads : Payloads
exec_payloads = record {
  exec = 1 ∷ 2 ∷ 3 ∷ [];
  rel = [];
  sym = [];
  imported = [];
  entry_vaddr = 0x7f108001;
  rx_size = 2;
}

abbrev at_start : World counting_kernel
at_start = start_up counting_kernel nothing_held (λ a. 0)

abbrev after_load : World counting_kernel
after_load = (load_image counting_kernel small_elf 0x80000000 exec_payloads 0 0 at_start).1

-- The payload is loaded, and a name is registered.
abbrev after_register : World counting_kernel
after_register = (register_call counting_kernel 0x80000000 (some small_name) 0x1234 after_load).1

after_register-Reachable :
    Reachable counting_kernel small_elf 0x80000000 exec_payloads after_register
after_register-Reachable =
    Calls.steps (Calls.steps (Calls.starts nothing_held (λ a. 0)) (Calls.load_images 0 0 refl))
      (Calls.registers (some small_name) 0x1234 refl)

Reachable-IsConsistent_example : IsConsistent counting_kernel after_register
Reachable-IsConsistent_example =
    Reachable-IsConsistent counting_kernel small_elf 0x80000000 exec_payloads after_register
      after_register-Reachable

calls_end_example :
    AllEnd counting_kernel counting_kernel-PageLaws small_elf 0x80000000 exec_payloads
      after_register
calls_end_example =
    calls_end counting_kernel counting_kernel-PageLaws small_elf 0x80000000 exec_payloads
      after_register after_register-Reachable

-- `modtest load`
abbrev load_argv : List Name
load_argv = small_name ∷ word_load ∷ []

abbrev after_modtest : World counting_kernel
after_modtest =
    (cmd_modtest counting_kernel small_elf 0x80000000 exec_payloads load_argv at_start).1

modtest_ran :
    cmd_modtest counting_kernel small_elf 0x80000000 exec_payloads load_argv at_start
    ≡ (done exit_ok, after_modtest)
unfolding cmd_modtest perform subcommand exit_code str_eq load_image load_embedded load_exec_blob
    fill_exec apply_wx_split split_page remap_page for_pages on_os call_service copy_bytes same
    ◌>>=◌
modtest_ran = refl

modtest_exit_example :
    (after_modtest.exports ≡ at_start.exports)
    × ((exit_ok ≡ exit_ok) ⊎ ((exit_ok ≡ exit_error) × (after_modtest.current ≡ at_start.current)))
modtest_exit_example =
    modtest_exit counting_kernel small_elf 0x80000000 exec_payloads load_argv at_start after_modtest
      exit_ok modtest_ran

abbrev sample_calls : List TableCall
sample_calls =
    registers (some small_name) 0x1234
    ∷ looks_up small_name true
    ∷ registers (some small_name) 0x5678
    ∷ unregisters (some small_name)
    ∷ unregisters (some small_name)
    ∷ looks_up small_name false
    ∷ registers none 1
    ∷ []

table_refines_example :
    run_table 0x80000000 sample_calls initial_exports
    ≡ run_directory 0x80000000 sample_calls empty_directory
table_refines_example = table_refines 0x80000000 sample_calls

-- `"embed:exec"`
abbrev exec_uri : Name
exec_uri = b'e' ∷ b'm' ∷ b'b' ∷ b'e' ∷ b'd' ∷ b':' ∷ b'e' ∷ b'x' ∷ b'e' ∷ b'c' ∷ []

abbrev after_uri : World counting_kernel
after_uri =
    (load_uri counting_kernel small_elf 0x80000000 exec_payloads (some exec_uri) 0 at_start).1

uri_loaded :
    load_uri counting_kernel small_elf 0x80000000 exec_payloads (some exec_uri) 0 at_start
    ≡ (done tt, after_uri)
unfolding load_uri parse_embed_uri str_eq load_embedded load_exec_blob fill_exec apply_wx_split
    split_page remap_page for_pages on_os call_service copy_bytes same ◌>>=◌
uri_loaded = refl

unload-load_uri_example :
    (w'' : World counting_kernel) × (unload counting_kernel after_uri ≡ (done tt, w''))
    × (w''.current ≡ no_module)
    × (w''.module_exports ≡ [])
    × Agrees
        (counting_kernel-ResourceLaws.held w''.os)
        (counting_kernel-ResourceLaws.held at_start.os)
unload-load_uri_example =
    unload-load_uri counting_kernel counting_kernel-ResourceLaws small_elf 0x80000000 exec_payloads
      (some exec_uri) 0 at_start after_uri uri_loaded
