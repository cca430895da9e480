-- ===== src/Api.antt =====
-- The operations of app/modloader/modloader.c, and `modloader_lookup_symbol` of
-- app/modloader/modloader_symbols.c. The embedded images, and the entry and the code size of the
-- prelinked one, come from the build: the record `Payloads` is a parameter.
use lk_modloader.Base.{
  ℕ, List, [], ◌∷◌, Option, none, some, Bool, true, false, not, ◌||◌, ◌==◌, ltb, str_eq, bit_or,
  if◌then◌else◌, length, ◌++◌,
}
use lk_modloader.Status.{err_not_valid, err_invalid_args, err_not_ready, err_not_found}
use lk_modloader.Outcome.{read}
use lk_modloader.Action.{Action, ◌>>=◌, ◌>>◌, raise, lift, gets, modify, guard}
use lk_modloader.Elf.{Elf, Name}
use lk_modloader.Kernel.{Kernel}
use lk_modloader.Export.{is_empty}
use lk_modloader.Symbols.{find_symbol}
use lk_modloader.Fetch.{fetch}
use lk_modloader.Exec.{load_exec_blob}
use lk_modloader.Wx.{verify_wx}
use lk_modloader.Rel.{load_rel_image}
use lk_modloader.Rel.FindEntry.{is_elf32}
use lk_modloader.World.{
  World, ModuleKind, modloader_rel, modloader_none, modloader_exec, no_module, on_os, call_service,
  ask, with_module, clear_index, free_heap,
}

pub record Payloads : Type 0 where
  pub exec : List ℕ
  pub rel : List ℕ
  pub sym : List ℕ
  pub imported : List ℕ
  pub entry_vaddr : ℕ
  pub rx_size : ℕ

-- `modloader_image_t`
abbrev pub image_exec : ℕ
image_exec = 0

abbrev pub image_rel : ℕ
image_rel = 1

abbrev pub image_sym : ℕ
image_sym = 2

abbrev pub image_import : ℕ
image_import = 3

-- `MODLOADER_FLAG_RESOLVE_EXPORTS`
abbrev pub flag_resolve_exports : ℕ
flag_resolve_exports = 1

-- `modloader_embedded_bytes` and, in the length of what it gives, `modloader_embedded_size`.
unfoldable pub embedded_bytes : Payloads → ℕ → Option (List ℕ)
embedded_bytes p image =
    if image == image_exec
    then some p.exec
    else if image == image_rel
    then some p.rel
    else if image == image_sym
    then some p.sym
    else if image == image_import
    then some p.imported
    else none

-- `"embed:exec"` and its like
abbrev embed_prefix : Name
embed_prefix = b'e' ∷ b'm' ∷ b'b' ∷ b'e' ∷ b'd' ∷ b':' ∷ []

unfoldable pub parse_embed_uri : Name → Option (ℕ × ℕ)
parse_embed_uri uri =
    if str_eq uri (embed_prefix ++ b'e' ∷ b'x' ∷ b'e' ∷ b'c' ∷ [])
    then some (image_exec, 0)
    else if str_eq uri (embed_prefix ++ b'r' ∷ b'e' ∷ b'l' ∷ [])
    then some (image_rel, 0)
    else if str_eq uri (embed_prefix ++ b's' ∷ b'y' ∷ b'm' ∷ [])
    then some (image_sym, flag_resolve_exports)
    else if str_eq uri (embed_prefix ++ b'i' ∷ b'm' ∷ b'p' ∷ b'o' ∷ b'r' ∷ b't' ∷ [])
    then some (image_import, flag_resolve_exports)
    else none

module _ (k : Kernel) (elf : Elf) (add_addr : ℕ) (p : Payloads) where
  unfoldable pub load_elf_buffer : List ℕ → ℕ → Action (World k) (Unit {0})
  load_elf_buffer bytes flags = do
    guard (length bytes == 0) err_not_valid
    guard (ltb (length bytes) elf.ehdr_size) err_not_valid
    ehdr ← lift (read (elf.ehdr_at bytes))
    guard (not (is_elf32 elf ehdr)) err_not_valid
    load_rel_image k elf add_addr bytes flags

  -- The images other than the prelinked one.
  unfoldable pub load_embedded_elf : Option (List ℕ) → ℕ → Action (World k) (Unit {0})
  load_embedded_elf none flags = raise err_not_valid
  load_embedded_elf (some bytes) flags = do
    guard (length bytes == 0) err_not_valid
    load_elf_buffer bytes flags

  unfoldable pub load_embedded : ℕ → ℕ → Action (World k) (Unit {0})
  unfolding load_embedded_elf
  load_embedded image flags =
      if image == image_exec
      then (do
        guard (length p.exec == 0) err_not_valid
        load_exec_blob k (some p.exec) p.entry_vaddr p.rx_size)
      else load_embedded_elf (embedded_bytes p image) flags

  unfoldable pub load_image : ℕ → ℕ → Action (World k) (Unit {0})
  load_image image flags = do
    guard (ltb image_import image) err_invalid_args
    load_embedded image flags

  -- `free(buf)` after the load, however it ends.
  unfoldable pub free_after : ℕ → Action (World k) (Unit {0}) → Action (World k) (Unit {0})
  free_after buf m w = ((m w).0, free_heap k buf (m w).1)

  unfoldable pub load_file : Name → ℕ → Action (World k) (Unit {0})
  load_file uri flags = do
    (buf, bytes) ← fetch k (some uri)
    free_after buf (load_elf_buffer bytes flags)

  -- `none` is a null pointer.
  unfoldable pub load_uri : Option Name → ℕ → Action (World k) (Unit {0})
  load_uri none flags = raise err_invalid_args
  load_uri (some uri) flags =
      if is_empty (some uri) then raise err_invalid_args else elim (parse_embed_uri uri) [
        | some (image, embed_flags) ↦ load_embedded image (bit_or embed_flags flags)
        | none ↦ load_file uri flags
      ]

module _ (k : Kernel) where
  -- What the payload returns, as a bit pattern.
  unfoldable pub run : Action (World k) ℕ
  run = do
    loaded ← gets (λ w. w.current.loaded)
    guard (not loaded) err_not_ready
    entry ← gets (λ w. w.current.entry)
    ask k (λ os. k.call os entry)

  unfoldable pub unload : Action (World k) (Unit {0})
  unload = do
    loaded ← gets (λ w. w.current.loaded)
    guard (not loaded) err_not_found
    base ← gets (λ w. w.current.base)
    call_service k (λ os. k.vmm_free_region os base)
    modify (clear_index k)
    modify (with_module k no_module)

  unfoldable pub wx_verify : Action (World k) (Unit {0})
  wx_verify = do
    loaded ← gets (λ w. w.current.loaded)
    guard (not loaded) err_not_ready
    module' ← gets (λ w. w.current)
    on_os k (verify_wx k module'.base module'.size)

  -- `modloader_mod.kind == MODLOADER_REL`
  abbrev pub is_rel : ModuleKind → Bool
  is_rel modloader_none = false
  is_rel modloader_exec = false
  is_rel modloader_rel = true

  -- 0 is the null pointer.
  unfoldable pub lookup_symbol : Option Name → World k → ℕ
  lookup_symbol none w = 0
  lookup_symbol (some name) w =
      if is_empty (some name) || not w.current.loaded || not (is_rel w.current.kind)
      then 0
      else elim (find_symbol w.module_exports name) [ none ↦ 0 | some addr ↦ addr ]
