-- ===== src/Load/Indifferent.antt =====
-- What a load keeps, for any predicate of the state that looks only at `modloader_mod`, at the export
-- table, and at the size of the index of symbols.
use lk_modloader.Base.{ℕ, zero, suc, ◌+◌, ◌≤◌, List, Option, none, some, Bool, true, length}
use lk_modloader.Status.{Result}
use lk_modloader.Action.{Action}
use lk_modloader.Action.Rules.{
  Maintains, Maintains-pure, Maintains-raise, Maintains-lift, Maintains-if, Maintains-bind,
  Maintains-on_error, Maintains-guard, Maintains-gets, Maintains-modify,
}
use lk_modloader.Elf.{Elf, Shdr, Name}
use lk_modloader.Kernel.{Kernel}
use lk_modloader.Memory.{Memory}
use lk_modloader.Symbols.{ModuleExports, max_module_exports}
use lk_modloader.World.{World, on_os, call_service, ask, with_mem}
use lk_modloader.Fetch.{
  mount_device, v9p_ensure_mounted, read_file, close_after, fetch_file_path, fetch_path, fetch,
  uri_path,
}
use lk_modloader.Exec.{fill_exec}
use lk_modloader.Rel.{resolve_symtab, resolve_all, fill_image}
use lk_modloader.Rel.Layout.{SymTab}
use lk_modloader.Rel.Relocate.{relocate_target, relocate_section, relocate_from}
use lk_modloader.Load.Stable.{Stable, copy_from-Maintains, on_mem-Maintains, finish_image-Maintains}

-- The writes after which `P` still holds.
pub record Indifferent (k : Kernel) (P : World k → Type 0) : Type 0 where
  pub os : (s : k.Os) (w : World k) → P w → P (record w { os = s })
  pub mem : (f : Memory → Memory) (w : World k) → P w → P (with_mem k f w)
  pub mounted : (b : Bool) (w : World k) → P w → P (record w { v9p_mounted = b })
  pub index :
      (t : ModuleExports) (w : World k)
      → length t ≤ max_module_exports
      → P w
      → P (record w { module_exports = t })

module _ (k : Kernel) (P : World k → Type 0) (st : Indifferent k P) where
  stable : Stable k P
  stable = record {
    mem = st.mem;
    index = st.index;
    map = λ va pa n flags w. st.os _ w;
    sync = λ start len w. st.os _ w;
  }

  pub on_os-Maintains : {A : Type 0} (m : Action k.Os A) → Maintains P (on_os k m)
  unfolding on_os
  on_os-Maintains m = record { run = λ w p. st.os (m w.os).1 w p }

  pub call_service-Maintains :
      {A : Type 0} (f : k.Os → Result A × k.Os) → Maintains P (call_service k f)
  unfolding call_service
  call_service-Maintains f = on_os-Maintains _

  pub ask-Maintains : {A : Type 0} (f : k.Os → A × k.Os) → Maintains P (ask k f)
  unfolding ask
  ask-Maintains f = on_os-Maintains _

  pub fill_exec-Maintains :
      (blob : List ℕ) (rx_size base map_size : ℕ)
      → Maintains P (fill_exec k blob rx_size base map_size)
  unfolding fill_exec
  fill_exec-Maintains blob rx_size base map_size =
      Maintains-bind _ _ (Maintains-modify _ (st.mem _)) (λ u.
        Maintains-bind _ _ (Maintains-modify _ (λ w. st.os _ w))
          (λ u'. Maintains-on_error _ _ (λ w. st.os _ w) (on_os-Maintains _)))

  module _ (elf : Elf) (add_addr : ℕ) where
    resolve_all-Maintains :
        (symtab : Option SymTab) → Maintains P (resolve_all k elf add_addr symtab)
    unfolding resolve_all resolve_symtab
    resolve_all-Maintains none = Maintains-pure _
    resolve_all-Maintains (some s) = Maintains-if _ _ _ (Maintains-pure _) (
        Maintains-bind _ _ (ask-Maintains _) (λ ptr. Maintains-bind _ _ (Maintains-guard _ _) (λ u.
          Maintains-bind _ _ (Maintains-gets _) (λ table.
            Maintains-bind _ _ (Maintains-on_error _ _ (λ w. st.os _ w) (Maintains-lift _))
              (λ addrs. Maintains-pure _)))))

    relocate_target-Maintains :
        (symtab : Option SymTab) (resolved : Option (List ℕ)) (base : ℕ) (sec_addr : List ℕ)
        (shnum : ℕ) (image : List ℕ) (shdrs : ℕ → Option Shdr) (p : ℕ) (shdr : Shdr)
        → Maintains P (relocate_target elf symtab resolved base sec_addr shnum image shdrs k p shdr)
    unfolding relocate_target
    relocate_target-Maintains symtab resolved base sec_addr shnum image shdrs p shdr =
        Maintains-bind _ _ (Maintains-guard _ _) (λ u. Maintains-bind _ _ (Maintains-lift _) (λ n.
          Maintains-bind _ _ (Maintains-lift _)
            (λ offset. Maintains-on_error _ _ (λ w. st.os _ w) (on_mem-Maintains k P stable _))))

    relocate_from-Maintains :
        (symtab : Option SymTab) (resolved : Option (List ℕ)) (base : ℕ) (sec_addr : List ℕ)
        (shnum : ℕ) (image : List ℕ) (shdrs : ℕ → Option Shdr) (p left i : ℕ)
        → Maintains P (relocate_from elf symtab resolved base sec_addr shnum image shdrs k p left i)
    unfolding relocate_from relocate_section
    relocate_from-Maintains symtab resolved base sec_addr shnum image shdrs p zero i =
        Maintains-pure _
    relocate_from-Maintains symtab resolved base sec_addr shnum image shdrs p (suc left) i =
        Maintains-bind _ _ (Maintains-lift _) (λ shdr.
          Maintains-bind _ _
            (Maintains-if _ _ _ (Maintains-pure _) (
              Maintains-bind _ _ (Maintains-guard _ _) (λ u.
                Maintains-bind _ _ (Maintains-lift _) (λ target.
                  Maintains-if _ _ _ (Maintains-pure _) (
                    relocate_target-Maintains symtab resolved base sec_addr shnum image shdrs p
                      shdr)))))
            (λ u.
              relocate_from-Maintains symtab resolved base sec_addr shnum image shdrs p left
                (i + 1)))

    pub fill_image-Maintains :
        (image : List ℕ) (shdrs : ℕ → Option Shdr) (shnum base total_size map_size : ℕ)
        (sec_addr : List ℕ)
        → Maintains P
            (fill_image k elf add_addr image shdrs shnum base total_size map_size sec_addr)
    unfolding fill_image
    fill_image-Maintains image shdrs shnum base total_size map_size sec_addr =
        Maintains-bind _ _ (copy_from-Maintains k P stable elf image shdrs sec_addr base _ 1) (λ u.
          Maintains-bind _ _ (Maintains-lift _) (λ symtab.
            Maintains-bind _ _ (resolve_all-Maintains symtab) (λ resolved.
              Maintains-bind _ _
                (relocate_from-Maintains symtab resolved.1 base sec_addr shnum image shdrs
                  resolved.0 _ 1)
                (λ u'. Maintains-bind _ _ (Maintains-modify _ (λ w. st.os _ w)) (λ u''.
                  finish_image-Maintains k P stable elf add_addr image shdrs shnum base total_size
                    map_size sec_addr symtab)))))

  mount_device-Maintains : (bdev : Option ℕ) → Maintains P (mount_device k bdev)
  unfolding mount_device
  mount_device-Maintains none = Maintains-raise _
  mount_device-Maintains (some bdev) =
      Maintains-bind _ _ (Maintains-modify _ (λ w. st.os _ w)) (λ u.
        Maintains-bind _ _ (call_service-Maintains _) (λ u'. Maintains-modify _ (st.mounted true)))

  v9p_ensure_mounted-Maintains : Maintains P (v9p_ensure_mounted k)
  unfolding v9p_ensure_mounted
  v9p_ensure_mounted-Maintains = Maintains-bind _ _ (Maintains-gets _) (λ mounted.
      Maintains-if _ _ _ (Maintains-pure _)
        (Maintains-bind _ _ (ask-Maintains _) mount_device-Maintains))

  read_file-Maintains : (fh : ℕ) → Maintains P (read_file k fh)
  unfolding read_file
  read_file-Maintains fh = Maintains-bind _ _ (call_service-Maintains _) (λ info.
      Maintains-bind _ _ (Maintains-guard _ _) (λ u. Maintains-bind _ _ (Maintains-guard _ _) (λ u'.
        Maintains-bind _ _ (ask-Maintains _) (λ buf.
          Maintains-bind _ _ (Maintains-guard _ _) (λ u''.
            Maintains-on_error _ _ (λ w. st.os _ w)
              (Maintains-bind _ _ (call_service-Maintains _)
                (λ bytes. Maintains-bind _ _ (Maintains-guard _ _) (λ v. Maintains-pure _))))))))

  pub close_after-Maintains :
      {A : Type 0} (fh : ℕ) (m : Action (World k) A)
      → Maintains P m
      → Maintains P (close_after k fh m)
  unfolding close_after
  close_after-Maintains fh m km = record { run = λ w p. st.os _ _ (km.run w p) }

  pub fetch-Maintains : (uri : Option Name) → Maintains P (fetch k uri)
  unfolding fetch fetch_path fetch_file_path
  fetch-Maintains none = Maintains-raise _
  fetch-Maintains (some uri) = path (uri_path uri)
    where
      path : (o : Option Name) → Maintains P (fetch_path k o)
      path none = Maintains-raise _
      path (some found) = Maintains-bind _ _ v9p_ensure_mounted-Maintains (λ u.
          Maintains-bind _ _ (call_service-Maintains _)
            (λ fh. close_after-Maintains fh _ (read_file-Maintains fh)))
