-- ===== src/Load/Ending.antt =====
-- Every load ends.
use lk_modloader.Base.{ℕ, zero, suc, ◌+◌, List, Option, none, some, bit_or}
use lk_modloader.Status.{Result}
use lk_modloader.Action.{Action}
use lk_modloader.Action.Ended.{
  Ends, Ends-pure, Ends-raise, Ends-lift, Ends-gets, Ends-if, Ends-bind, Ends-on_error, Ends-modify,
  Ends-guard, IsEnded-of_result, IsEnded-read, ends_rules,
}
use lk_modloader.Elf.{Elf, Shdr, Name}
use lk_modloader.Kernel.{Kernel, PageLaws}
use lk_modloader.World.{World, on_os, on_symbols, call_service, ask}
use lk_modloader.Fetch.{
  mount_device, v9p_ensure_mounted, read_file, close_after, fetch_file_path, fetch_path, fetch,
  uri_path,
}
use lk_modloader.Exec.{fill_exec, load_exec_blob}
use lk_modloader.Rel.{
  copy_section, copy_from, resolve_symtab, resolve_all, finish_image, fill_image, map_image,
  load_rel_image,
}
use lk_modloader.Rel.Layout.{SymTab}
use lk_modloader.Rel.Ending.{
  layout-IsEnded, find_symtab-IsEnded, check_header-IsEnded, find_entry-IsEnded,
  resolve_externals-IsEnded,
}
use lk_modloader.Rel.Writing.{relocate_from-Ends, symbols_build-Ends}
use lk_modloader.Wx.Ending.{IsPages, roundup-IsPages, apply_wx_split-Ends, apply_wx_sections-Ends}
use lk_modloader.Symbols.{ModuleExports}
use lk_modloader.Api.{
  Payloads, embedded_bytes, parse_embed_uri, load_elf_buffer, load_embedded_elf, load_embedded,
  load_image, load_file, load_uri, free_after,
}

module _ (k : Kernel) where
  pub on_os-Ends : {A : Type 0} (m : Action k.Os A) → Ends m → Ends (on_os k m)
  unfolding on_os
  on_os-Ends m h = record { run = λ w. h.run w.os }

  on_symbols-Ends : {A : Type 0} (m : Action ModuleExports A) → Ends m → Ends (on_symbols k m)
  unfolding on_symbols
  on_symbols-Ends m h = record { run = λ w. h.run w.module_exports }

  pub call_service-Ends : {A : Type 0} (f : k.Os → Result A × k.Os) → Ends (call_service k f)
  unfolding call_service
  call_service-Ends f = on_os-Ends _ (record { run = λ os. IsEnded-of_result _ })

  pub ask-Ends : {A : Type 0} (f : k.Os → A × k.Os) → Ends (ask k f)
  unfolding ask
  ask-Ends f = on_os-Ends _ (record { run = λ os. tt })

  module _ (elf : Elf) (image : List ℕ) where
    copy_section-Ends : (shdr : Shdr) (dest : ℕ) → Ends (copy_section k elf image shdr dest)
    unfolding copy_section
    copy_section-Ends shdr dest = search (ends_rules)

    copy_from-Ends :
        (shdrs : ℕ → Option Shdr) (sec_addr : List ℕ) (base left i : ℕ)
        → Ends (copy_from k elf image shdrs sec_addr base left i)
    unfolding copy_from
    copy_from-Ends shdrs sec_addr base zero i = search (ends_rules)
    copy_from-Ends shdrs sec_addr base (suc left) i =
        Ends-bind _ _ (Ends-lift _ (IsEnded-read _)) (λ shdr.
          Ends-bind _ _
            (Ends-if _ _ _ (Ends-pure _)
              (Ends-bind _ _ (Ends-lift _ (IsEnded-read _)) (λ offset. copy_section-Ends shdr _)))
            (λ u. copy_from-Ends shdrs sec_addr base left (i + 1)))

  module _ (elf : Elf) (add_addr : ℕ) where
    resolve_all-Ends : (symtab : Option SymTab) → Ends (resolve_all k elf add_addr symtab)
    unfolding resolve_all resolve_symtab
    resolve_all-Ends none = Ends-pure _
    resolve_all-Ends (some t) = Ends-if _ _ _ (Ends-pure _) (
        Ends-bind _ _ (ask-Ends _) (λ ptr. Ends-bind _ _ (Ends-guard _ _) (λ u.
          Ends-bind _ _ (Ends-gets _) (λ table.
            Ends-bind _ _
              (Ends-on_error _ _ (
                Ends-lift _
                  (resolve_externals-IsEnded elf add_addr table t.symstr t.syms t.sym_count)))
              (λ addrs. Ends-pure _)))))

    module _ (l : PageLaws k) (image : List ℕ) (shdrs : ℕ → Option Shdr)
        (shnum base total_size map_size : ℕ) (sec_addr : List ℕ) (pages : IsPages k map_size) where
      finish_image-Ends :
          (symtab : Option SymTab)
          → Ends (
              finish_image k elf add_addr image shdrs shnum base total_size map_size sec_addr
                symtab)
      unfolding finish_image
      finish_image-Ends none = Ends-raise _
      finish_image-Ends (some t) =
          Ends-bind _ _ (Ends-lift _ (find_entry-IsEnded elf t sec_addr base shnum)) (λ entry.
            Ends-bind _ _
              (on_os-Ends _
                (apply_wx_sections-Ends k l map_size pages elf shdrs shnum sec_addr base))
              (λ u. Ends-bind _ _ (Ends-modify _) (λ u'.
                Ends-bind _ _
                  (on_symbols-Ends _
                    (symbols_build-Ends elf t.syms t.sym_count t.symstr base sec_addr shnum))
                  (λ u''. Ends-pure _))))

      fill_image-Ends :
          Ends (fill_image k elf add_addr image shdrs shnum base total_size map_size sec_addr)
      unfolding fill_image
      fill_image-Ends = Ends-bind _ _ (copy_from-Ends elf image shdrs sec_addr base _ 1) (λ u.
          Ends-bind _ _ (Ends-lift _ (find_symtab-IsEnded elf image shdrs _ 1)) (λ symtab.
            Ends-bind _ _ (resolve_all-Ends symtab) (λ resolved.
              Ends-bind _ _
                (relocate_from-Ends elf symtab resolved.1 base sec_addr shnum image shdrs k
                  resolved.0 _ 1)
                (λ u'. Ends-bind _ _ (Ends-modify _) (λ u''. finish_image-Ends symtab)))))

module _ (k : Kernel) where
  mount_device-Ends : (bdev : Option ℕ) → Ends (mount_device k bdev)
  unfolding mount_device
  mount_device-Ends none = Ends-raise _
  mount_device-Ends (some bdev) =
      Ends-bind _ _ (Ends-modify _)
        (λ u. Ends-bind _ _ (call_service-Ends k _) (λ u'. Ends-modify _))

  read_file-Ends : (fh : ℕ) → Ends (read_file k fh)
  unfolding read_file
  read_file-Ends fh = Ends-bind _ _ (call_service-Ends k _) (λ info.
      Ends-bind _ _ (Ends-guard _ _) (λ u. Ends-bind _ _ (Ends-guard _ _) (λ u'.
        Ends-bind _ _ (ask-Ends k _) (λ buf. Ends-bind _ _ (Ends-guard _ _) (λ u''.
          Ends-on_error _ _ (
            Ends-bind _ _ (call_service-Ends k _)
              (λ bytes. Ends-bind _ _ (Ends-guard _ _) (λ v. Ends-pure _))))))))

  close_after-Ends :
      {A : Type 0} (fh : ℕ) (m : Action (World k) A) → Ends m → Ends (close_after k fh m)
  unfolding close_after
  close_after-Ends fh m h = record { run = λ w. h.run w }

  fetch-Ends : (uri : Option Name) → Ends (fetch k uri)
  unfolding fetch fetch_path fetch_file_path v9p_ensure_mounted
  fetch-Ends none = Ends-raise _
  fetch-Ends (some uri) = path (uri_path uri)
    where
      path : (o : Option Name) → Ends (fetch_path k o)
      path none = Ends-raise _
      path (some found) =
          Ends-bind _ _
            (Ends-bind _ _ (Ends-gets _) (λ mounted.
              Ends-if _ _ _ (Ends-pure _) (Ends-bind _ _ (ask-Ends k _) mount_device-Ends)))
            (λ u.
              Ends-bind _ _ (call_service-Ends k _)
                (λ fh. close_after-Ends fh _ (read_file-Ends fh)))

module _ (k : Kernel) (l : PageLaws k) (elf : Elf) (add_addr : ℕ) where
  load_rel_image-Ends :
      (image : List ℕ) (flags : ℕ) → Ends (load_rel_image k elf add_addr image flags)
  unfolding load_rel_image map_image
  load_rel_image-Ends image flags = Ends-bind _ _ (Ends-guard _ _) (λ u.
      Ends-bind _ _ (Ends-gets _) (λ loaded. Ends-bind _ _ (Ends-guard _ _) (λ u1.
        Ends-bind _ _ (Ends-modify _) (λ u2. Ends-bind _ _ (Ends-lift _ (IsEnded-read _)) (λ ehdr.
          Ends-bind _ _ (Ends-lift _ (check_header-IsEnded elf image ehdr)) (λ u3.
            Ends-bind _ _ (Ends-lift _ (layout-IsEnded k elf _ _)) (λ placed.
              Ends-bind _ _ (Ends-guard _ _) (λ u4. Ends-bind _ _ (call_service-Ends k _) (λ base.
                Ends-bind _ _
                  (Ends-on_error _ _
                    (fill_image-Ends k elf add_addr l image _ _ base _ _ _ (roundup-IsPages k l _)))
                  (λ entry. Ends-modify _))))))))))

  load_exec_blob-Ends :
      (blob : Option (List ℕ)) (entry_vaddr rx_size : ℕ)
      → Ends (load_exec_blob k blob entry_vaddr rx_size)
  unfolding load_exec_blob fill_exec
  load_exec_blob-Ends none entry_vaddr rx_size = Ends-raise _
  load_exec_blob-Ends (some blob) entry_vaddr rx_size = Ends-bind _ _ (Ends-guard _ _) (λ u.
      Ends-bind _ _ (Ends-gets _) (λ loaded. Ends-bind _ _ (Ends-guard _ _) (λ u1.
        Ends-bind _ _ (call_service-Ends k _) (λ base.
          Ends-bind _ _
            (Ends-bind _ _ (Ends-modify _) (λ u2. Ends-bind _ _ (Ends-modify _) (λ u3.
              Ends-on_error _ _
                (on_os-Ends k _ (apply_wx_split-Ends k l _ (roundup-IsPages k l _) base rx_size)))))
            (λ u4. Ends-modify _)))))

  module _ (p : Payloads) where
    load_elf_buffer-Ends :
        (bytes : List ℕ) (flags : ℕ) → Ends (load_elf_buffer k elf add_addr p bytes flags)
    unfolding load_elf_buffer
    load_elf_buffer-Ends bytes flags = Ends-bind _ _ (Ends-guard _ _) (λ u.
        Ends-bind _ _ (Ends-guard _ _) (λ u'.
          Ends-bind _ _ (Ends-lift _ (IsEnded-read _))
            (λ ehdr. Ends-bind _ _ (Ends-guard _ _) (λ u''. load_rel_image-Ends bytes flags))))

    load_embedded_elf-Ends :
        (bytes : Option (List ℕ)) (flags : ℕ)
        → Ends (load_embedded_elf k elf add_addr p bytes flags)
    unfolding load_embedded_elf
    load_embedded_elf-Ends none flags = Ends-raise _
    load_embedded_elf-Ends (some bytes) flags =
        Ends-bind _ _ (Ends-guard _ _) (λ u. load_elf_buffer-Ends bytes flags)

    load_embedded-Ends : (image flags : ℕ) → Ends (load_embedded k elf add_addr p image flags)
    unfolding load_embedded
    load_embedded-Ends image flags =
        Ends-if _ _ _
          (Ends-bind _ _ (Ends-guard _ _)
            (λ u. load_exec_blob-Ends (some p.exec) p.entry_vaddr p.rx_size))
          (load_embedded_elf-Ends (embedded_bytes p image) flags)

    pub load_image-Ends : (image flags : ℕ) → Ends (load_image k elf add_addr p image flags)
    unfolding load_image
    load_image-Ends image flags =
        Ends-bind _ _ (Ends-guard _ _) (λ u. load_embedded-Ends image flags)

    free_after-Ends :
        (buf : ℕ) (m : Action (World k) (Unit {0}))
        → Ends m
        → Ends (free_after k elf add_addr p buf m)
    unfolding free_after
    free_after-Ends buf m h = record { run = λ w. h.run w }

    load_file-Ends : (uri : Name) (flags : ℕ) → Ends (load_file k elf add_addr p uri flags)
    unfolding load_file
    load_file-Ends uri flags =
        Ends-bind _ _ (fetch-Ends k (some uri))
          (λ f. free_after-Ends f.0 _ (load_elf_buffer-Ends f.1 flags))

    pub load_uri-Ends : (uri : Option Name) (flags : ℕ) → Ends (load_uri k elf add_addr p uri flags)
    unfolding load_uri
    load_uri-Ends none flags = Ends-raise _
    load_uri-Ends (some uri) flags = Ends-if _ _ _ (Ends-raise _) (embed (parse_embed_uri uri))
      where
        embed :
            (o : Option (ℕ × ℕ))
            → Ends (elim o [
              | some (image, embed_flags) ↦
                  load_embedded k elf add_addr p image (bit_or embed_flags flags)
              | none ↦ load_file k elf add_addr p uri flags
            ])
        embed (some (image, embed_flags)) = load_embedded-Ends image _
        embed none = load_file-Ends uri flags
