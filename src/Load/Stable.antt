-- ===== src/Load/Stable.antt =====
-- The parts of a load that write the mapping and set its permissions: what they keep, for any
-- predicate of the state that does not look at the memory, the index of symbols or the page table.
use lk_modloader.Base.{ℕ, zero, suc, ◌+◌, List, Option, none, some, length, ◌≤◌}
use lk_modloader.Action.{Action}
use lk_modloader.Action.Rules.{
  Maintains, Maintains-pure, Maintains-raise, Maintains-lift, Maintains-if, Maintains-bind,
  Maintains-guard, Maintains-gets, Maintains-modify,
}
use lk_modloader.Elf.{Elf, Shdr, Sym, Name}
use lk_modloader.Kernel.{Kernel}
use lk_modloader.Memory.{Memory}
use lk_modloader.Symbols.{ModuleExports, max_module_exports, symbols_build}
use lk_modloader.Symbols.Build.{length-build}
use lk_modloader.Wx.{
  for_pages, remap_page, split_page, apply_wx_split, protect_page, apply_wx_sections,
}
use lk_modloader.World.{World, on_os, on_symbols, on_mem, with_os, with_mem}
use lk_modloader.Rel.{copy_section, copy_from, finish_image}
use lk_modloader.Rel.Layout.{SymTab}

-- The writes after which `P` still holds.
pub record Stable (k : Kernel) (P : World k → Type 0) : Type 0 where
  pub mem : (f : Memory → Memory) (w : World k) → P w → P (with_mem k f w)
  pub index :
      (t : ModuleExports) (w : World k)
      → length t ≤ max_module_exports
      → P w
      → P (record w { module_exports = t })
  pub map :
      (va pa n flags : ℕ) (w : World k)
      → P w
      → P (with_os k (λ os. (k.arch_mmu_map os va pa n flags).1) w)
  pub sync :
      (start len : ℕ) (w : World k)
      → P w
      → P (with_os k (λ os. k.arch_sync_cache_range os start len) w)

for_pages-Maintains :
    {S : Type 0} {P : S → Type 0} (page_size map_size : ℕ) (body : ℕ → Action S (Unit {0}))
    → ((off : ℕ) → Maintains P (body off))
    → (fuel off : ℕ) → Maintains P (for_pages page_size map_size body fuel off)
unfolding for_pages
for_pages-Maintains page_size map_size body each zero off = Maintains-lift _
for_pages-Maintains page_size map_size body each (suc fuel) off =
    Maintains-if _ _ _
      (Maintains-bind _ _ (each off) (λ u. for_pages-Maintains page_size map_size body each fuel _))
      (Maintains-pure tt)

module _ (k : Kernel) (P : World k → Type 0) (st : Stable k P) (w : World k) where
  -- `P` as a predicate on the state of the kernel, in a world that is else as `w`.
  abbrev In : k.Os → Type 0
  In os = P (record w { os = os })

  remap_page-Maintains : (va flags : ℕ) → Maintains In (remap_page k va flags)
  unfolding remap_page
  remap_page-Maintains va flags = Maintains-bind _ _ (Maintains-gets _) (λ pa.
      Maintains-bind _ _ (Maintains-lift _)
        (λ found. record { run = λ os p. st.map va found.0 1 flags (record w { os = os }) p }))

  apply_wx_split-Maintains :
      (base map_size rx_size : ℕ) → Maintains In (apply_wx_split k base map_size rx_size)
  unfolding apply_wx_split split_page
  apply_wx_split-Maintains base map_size rx_size =
      Maintains-bind _ _
        (for_pages-Maintains k.page_size map_size _ (λ off. remap_page-Maintains _ _) _ 0)
        (λ u. Maintains-modify _ (λ os p. st.sync base map_size (record w { os = os }) p))

  apply_wx_sections-Maintains :
      (elf : Elf) (shdrs : ℕ → Option Shdr) (shnum : ℕ) (sec_addr : List ℕ) (base map_size : ℕ)
      → Maintains In (apply_wx_sections k elf shdrs shnum sec_addr base map_size)
  unfolding apply_wx_sections protect_page
  apply_wx_sections-Maintains elf shdrs shnum sec_addr base map_size =
      Maintains-bind _ _
        (for_pages-Maintains k.page_size map_size _
          (λ off. Maintains-bind _ _ (Maintains-lift _) (λ flags. remap_page-Maintains _ flags)) _
          0)
        (λ u. Maintains-modify _ (λ os p. st.sync base map_size (record w { os = os }) p))

module _ (k : Kernel) (P : World k → Type 0) (st : Stable k P) where
  on_os-Maintains :
      {A : Type 0} (m : Action k.Os A)
      → ((w : World k) → Maintains (In k P st w) m)
      → Maintains P (on_os k m)
  unfolding on_os
  on_os-Maintains m km = record { run = λ w p. (km w).run w.os p }

  pub on_mem-Maintains : {A : Type 0} (m : Action Memory A) → Maintains P (on_mem k m)
  unfolding on_mem
  on_mem-Maintains m = record { run = λ w p. st.mem (λ mem. (m mem).1) w p }

  symbols_build-Maintains :
      (elf : Elf) (syms : Option (ℕ → Option Sym)) (sym_count : ℕ)
      (symstr : Option (ℕ → Option Name)) (base : ℕ) (sec_addr : List ℕ) (shnum : ℕ)
      → Maintains P (on_symbols k (symbols_build elf syms sym_count symstr base sec_addr shnum))
  unfolding on_symbols
  symbols_build-Maintains elf syms sym_count symstr base sec_addr shnum = record {
    run = λ w p.
        st.index _ w (length-build elf syms sym_count symstr base sec_addr shnum w.module_exports)
          p;
  }

  copy_section-Maintains :
      (elf : Elf) (image : List ℕ) (shdr : Shdr) (dest : ℕ)
      → Maintains P (copy_section k elf image shdr dest)
  unfolding copy_section
  copy_section-Maintains elf image shdr dest =
      Maintains-if _ _ _
        (Maintains-bind _ _ (Maintains-guard _ _)
          (λ u. Maintains-bind _ _ (Maintains-lift _) (λ bytes. Maintains-modify _ (st.mem _))))
        (Maintains-if _ _ _ (Maintains-modify _ (st.mem _)) (Maintains-pure _))

  pub copy_from-Maintains :
      (elf : Elf) (image : List ℕ) (shdrs : ℕ → Option Shdr) (sec_addr : List ℕ) (base left i : ℕ)
      → Maintains P (copy_from k elf image shdrs sec_addr base left i)
  unfolding copy_from
  copy_from-Maintains elf image shdrs sec_addr base zero i = Maintains-pure tt
  copy_from-Maintains elf image shdrs sec_addr base (suc left) i =
      Maintains-bind _ _ (Maintains-lift _) (λ shdr.
        Maintains-bind _ _
          (Maintains-if _ _ _ (Maintains-pure _)
            (Maintains-bind _ _ (Maintains-lift _) (λ o. copy_section-Maintains elf image shdr _)))
          (λ u. copy_from-Maintains elf image shdrs sec_addr base left (i + 1)))

  pub finish_image-Maintains :
      (elf : Elf) (add_addr : ℕ) (image : List ℕ) (shdrs : ℕ → Option Shdr)
      (shnum base total_size map_size : ℕ) (sec_addr : List ℕ) (symtab : Option SymTab)
      → Maintains P
          (finish_image k elf add_addr image shdrs shnum base total_size map_size sec_addr symtab)
  unfolding finish_image
  finish_image-Maintains elf add_addr image shdrs shnum base total_size map_size sec_addr none =
      Maintains-raise _
  finish_image-Maintains elf add_addr image shdrs shnum base total_size map_size sec_addr (some s) =
      Maintains-bind _ _ (Maintains-lift _) (λ entry.
        Maintains-bind _ _
          (on_os-Maintains _
            (λ w. apply_wx_sections-Maintains k P st w elf shdrs shnum sec_addr base map_size))
          (λ u. Maintains-bind _ _ (Maintains-modify _ (st.sync base total_size)) (λ u'.
            Maintains-bind _ _ (symbols_build-Maintains elf _ _ _ base sec_addr shnum)
              (λ u''. Maintains-pure _))))

  -- Without the clean-up of its last step.
  pub wx_split-Maintains :
      (base map_size rx_size : ℕ) → Maintains P (on_os k (apply_wx_split k base map_size rx_size))
  wx_split-Maintains base map_size rx_size =
      on_os-Maintains _ (λ w. apply_wx_split-Maintains k P st w base map_size rx_size)
