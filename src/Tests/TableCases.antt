-- ===== src/Tests/TableCases.antt =====
-- The theorems on the export table and the symbol index at small tables.
use lk_modloader.Base.{◌≤◌, ◌≡◌, refl, [], some, true, length, str_eq}
use lk_modloader.Status.{ok}
use lk_modloader.Outcome.{done}
use lk_modloader.Action.{◌>>=◌}
use lk_modloader.Export.{
  Exports, initial_exports, export_register, export_unregister, lookup_export, export_vaddr,
  find_builtin, builtin_exports, replace_addr, fill_free, clear_slot,
}
use lk_modloader.Export.Lookup.{
  IsValid, initial_exports-IsValid, lookup-register, register-IsValid, lookup-unregister,
}
use lk_modloader.SymValue.{resolved_sym_addr, resolved_addr}
use lk_modloader.Symbols.{
  ModuleExports, max_module_exports, symbols_build, find_symbol, index_from, index_symbol,
  index_named, passed_over, not_exported, skip_module_export, starts_with,
}
use lk_modloader.Symbols.Build.{search_from, find_symbol-build, length-build}
use lk_modloader.Tests.Samples.{small_elf, small_syms, small_symstr, small_sec_addr, small_name}

-- The table with `fn` registered.
abbrev one_export : Exports
one_export = (export_register 0x80000000 (some small_name) 0x4000 initial_exports).1

registered :
    export_register 0x80000000 (some small_name) 0x4000 initial_exports ≡ (ok tt, one_export)
unfolding export_register find_builtin builtin_exports replace_addr fill_free str_eq
registered = refl

lookup-register_example : lookup_export 0x80000000 one_export small_name true ≡ 0x4001
unfolding str_eq export_vaddr
lookup-register_example =
    lookup-register 0x80000000 small_name 0x4000 initial_exports small_name true registered

abbrev no_exports : Exports
no_exports = (export_unregister (some small_name) one_export).1

unregistered : export_unregister (some small_name) one_export ≡ (ok tt, no_exports)
unfolding export_register export_unregister find_builtin builtin_exports replace_addr fill_free
    clear_slot str_eq
unregistered = refl

lookup-unregister_example :
    IsValid no_exports
    × (lookup_export 0x80000000 no_exports small_name true
        ≡ lookup_export 0x80000000 [] small_name true)
unfolding lookup_export str_eq
lookup-unregister_example =
    lookup-unregister 0x80000000 small_name one_export small_name true
      (register-IsValid 0x80000000 small_name 0x4000 initial_exports initial_exports-IsValid
        registered)
      unregistered

abbrev index : ModuleExports
index =
    (symbols_build small_elf (some small_syms) 3 (some small_symstr) 0x7f108000 small_sec_addr 3
      []).1

built :
    symbols_build small_elf (some small_syms) 3 (some small_symstr) 0x7f108000 small_sec_addr 3 []
    ≡ (done tt, index)
unfolding symbols_build index_from index_symbol index_named passed_over not_exported
    skip_module_export starts_with resolved_sym_addr resolved_addr ◌>>=◌
built = refl

find_symbol-build_example :
    find_symbol index small_name
    ≡ search_from small_elf small_syms small_symstr 0x7f108000 small_sec_addr 3 3 0 small_name
find_symbol-build_example =
    find_symbol-build small_elf small_syms small_symstr 0x7f108000 small_sec_addr 3 3 small_name []
      index built

length-build_example :
    length
      (symbols_build small_elf
        (some small_syms)
        3
        (some small_symstr)
        0x7f108000
        small_sec_addr
        3
        []).1
    ≤ max_module_exports
length-build_example =
    length-build small_elf (some small_syms) 3 (some small_symstr) 0x7f108000 small_sec_addr 3 []
