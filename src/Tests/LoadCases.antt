-- ===== src/Tests/LoadCases.antt =====
-- The theorems on loads at a small prelinked payload, and on files and imports.
use lk_modloader.Base.{
  ℕ, ◌≡◌, ◌≢◌, refl, inl, [], ◌∷◌, Option, some, true, false, arith, str_eq, get_elem?, drop,
}
use lk_modloader.Outcome.{done, is_done}
use lk_modloader.Action.{◌>>=◌}
use lk_modloader.Elf.{Name, Sym}
use lk_modloader.Memory.{copy_bytes}
use lk_modloader.Export.{
  initial_exports, export_add_name, lookup_export, find_builtin, builtin_exports, export_vaddr,
}
use lk_modloader.Symbols.{starts_with, not_exported}
use lk_modloader.Externals.{
  is_function, resolve_name, resolve_symbol, resolve_from, resolve_externals,
}
use lk_modloader.Externals.Sound.{resolve_externals_global}
use lk_modloader.Fetch.{
  mount_device, v9p_ensure_mounted, read_file, close_after, fetch_file_path, fetch_path, fetch,
  uri_path, is_absolute,
}
use lk_modloader.Fetch.Bounds.{IsFetched, fetch_done}
use lk_modloader.Wx.{for_pages, remap_page, split_page, apply_wx_split}
use lk_modloader.Exec.{fill_exec, load_exec_blob}
use lk_modloader.World.{World, start_up, no_module, on_os, call_service, ask}
use lk_modloader.Api.{
  Payloads, load_embedded, load_image, load_file, load_uri, parse_embed_uri, unload, wx_verify,
}
use lk_modloader.Load.Failed.{load_uri_failed}
use lk_modloader.Load.Verified.{wx_verify-Loaded}
use lk_modloader.Load.Second.{LoadsRefuse, load_loaded}
use lk_modloader.Load.Unload.{IsUnloaded, unload_done, unload_failed}
use lk_modloader.Tests.Samples.{
  small_kernel, small_kernel-MmuLaws, open_pages, small_elf, small_name,
}

abbrev small_payloads : Payloads
small_payloads = record {
  exec = 1 ∷ 2 ∷ 3 ∷ [];
  rel = [];
  sym = [];
  imported = [];
  entry_vaddr = 0x7f108001;
  rx_size = 2;
}

abbrev fresh : World small_kernel
fresh = start_up small_kernel open_pages (λ a. 0)

abbrev loaded : World small_kernel
loaded = (load_image small_kernel small_elf 0x80000000 small_payloads 0 0 fresh).1

load_ran : load_image small_kernel small_elf 0x80000000 small_payloads 0 0 fresh ≡ (done tt, loaded)
unfolding load_image load_embedded load_exec_blob fill_exec apply_wx_split split_page remap_page
    for_pages on_os call_service copy_bytes ◌>>=◌
load_ran = refl

in_range :
    (loaded.current.loaded ≡ true)
    × (loaded.current.base ≡ 0x7f108000)
    × (loaded.current.size ≡ 4096)
unfolding load_image load_embedded load_exec_blob fill_exec apply_wx_split split_page remap_page
    for_pages on_os call_service copy_bytes ◌>>=◌
in_range = (refl, refl, refl)

wx_verify-Loaded_example :
    (loaded.current.loaded ≡ true) × (wx_verify small_kernel loaded ≡ (done tt, loaded))
wx_verify-Loaded_example =
    wx_verify-Loaded small_kernel small_kernel-MmuLaws small_elf 0x80000000 small_payloads fresh
      loaded (inl (0, 0, load_ran)) (omega (arith, in_range)) (omega (arith, in_range))

load_loaded_example : LoadsRefuse small_kernel small_elf 0x80000000 small_payloads loaded
load_loaded_example = load_loaded small_kernel small_elf 0x80000000 small_payloads loaded in_range.0

image_refused :
    is_done (load_image small_kernel small_elf 0x80000000 small_payloads 9 0 fresh).0 ≡ false
unfolding load_image ◌>>=◌
image_refused = refl

uri_refused :
    is_done (load_uri small_kernel small_elf 0x80000000 small_payloads (some small_name) 0 fresh).0
    ≡ false
unfolding load_uri load_file parse_embed_uri fetch fetch_path uri_path is_absolute starts_with
    str_eq ◌>>=◌
uri_refused = refl

load_uri_failed_example :
    ((load_uri small_kernel small_elf 0x80000000 small_payloads (some small_name) 0 fresh).1.current
      ≡ no_module)
    × ((load_uri small_kernel small_elf 0x80000000 small_payloads
          (some small_name)
          0
          fresh).1.exports
        ≡ initial_exports)
load_uri_failed_example =
    load_uri_failed small_kernel small_elf 0x80000000 small_payloads fresh (some small_name) 0
      uri_refused

abbrev unloaded : World small_kernel
unloaded = (unload small_kernel loaded).1

unload_ran : unload small_kernel loaded ≡ (done tt, unloaded)
unfolding load_image load_embedded load_exec_blob fill_exec apply_wx_split split_page remap_page
    for_pages on_os call_service copy_bytes unload ◌>>=◌
unload_ran = refl

unload_done_example :
    (loaded.current.loaded ≡ true)
    × (unloaded.current ≡ no_module)
    × (unloaded.module_exports ≡ [])
    × (unloaded.exports ≡ loaded.exports)
    × IsUnloaded small_kernel unloaded
unload_done_example = unload_done small_kernel loaded unloaded unload_ran

unload_refused : is_done (unload small_kernel fresh).0 ≡ false
unfolding unload ◌>>=◌
unload_refused = refl

unload_failed_example :
    ((unload small_kernel fresh).1.current ≡ no_module)
    × ((unload small_kernel fresh).1.module_exports ≡ [])
unload_failed_example = unload_failed small_kernel fresh unload_refused

-- `"/a"`
abbrev file_uri : Name
file_uri = b'/' ∷ b'a' ∷ []

abbrev fetched : World small_kernel
fetched = (fetch small_kernel (some file_uri) fresh).1

fetch_ran : fetch small_kernel (some file_uri) fresh ≡ (done (0x1000, 7 ∷ 9 ∷ []), fetched)
unfolding fetch fetch_path fetch_file_path v9p_ensure_mounted mount_device read_file close_after
    uri_path is_absolute starts_with ask call_service on_os ◌>>=◌
fetch_ran = refl

fetch_done_example : IsFetched (0x1000, 7 ∷ 9 ∷ [])
fetch_done_example = fetch_done small_kernel file_uri fresh fetched (0x1000, 7 ∷ 9 ∷ []) fetch_ran

-- A global function that the module imports.
abbrev imported : Sym
imported = record { st_name = 1; st_value = 0; st_info = 0x12; st_shndx = 0 }

abbrev import_syms : ℕ → Option Sym
import_syms i = get_elem? (imported ∷ []) i

abbrev import_names : ℕ → Option Name
import_names i = some export_add_name

abbrev rest_of_name : Name
rest_of_name = drop 1 export_add_name

externals_ran :
    resolve_externals small_elf 0x80000000 initial_exports import_names import_syms 1
    ≡ done (0x80000001 ∷ [])
unfolding resolve_externals resolve_from resolve_symbol resolve_name is_function not_exported
    lookup_export find_builtin builtin_exports export_vaddr str_eq
externals_ran = refl

is_visible : not_exported small_elf imported ≡ false
unfolding not_exported
is_visible = refl

resolve_externals_global_example :
    (a : ℕ) × (get_elem? (0x80000001 ∷ []) 0 ≡ some a)
    × (a ≢ 0)
    × (a
        ≡ lookup_export 0x80000000 initial_exports export_add_name
            (is_function small_elf 0x80000000 initial_exports imported export_add_name))
resolve_externals_global_example =
    resolve_externals_global small_elf 0x80000000 initial_exports import_names import_syms 1 0
      (0x80000001 ∷ []) imported b'm' rest_of_name externals_ran (omega arith) refl refl is_visible
      (λ e. omega (arith, e)) refl
