-- ===== src/Tests/WxCases.antt =====
-- The enforcement theorems on a mapping of two pages, one of code and one of data.
use lk_modloader.Base.{◌≡◌, refl, arith}
use lk_modloader.Outcome.{done}
use lk_modloader.Wx.{
  for_pages, remap_page, split_page, apply_wx_split, protect_page, apply_wx_sections, verify_wx,
}
use lk_modloader.Wx.PageFlags.{on_page, see, see_section, see_from, choose_flags, page_flags}
use lk_modloader.Wx.Enforce.{PagesEnforced, verify-apply_wx_sections, verify-apply_wx_split}
use lk_modloader.Action.{◌>>=◌}
use lk_modloader.Tests.Samples.{
  PageTable, small_kernel, small_kernel-MmuLaws, open_pages, small_elf, small_shdrs, small_sec_addr,
}

abbrev sections_set : PageTable
sections_set =
    (apply_wx_sections small_kernel small_elf small_shdrs 3 small_sec_addr 0x7f108000 8192
      open_pages).1

abbrev split_set : PageTable
split_set = (apply_wx_split small_kernel 0x7f108000 8192 100 open_pages).1

sections_ran :
    apply_wx_sections small_kernel small_elf small_shdrs 3 small_sec_addr 0x7f108000 8192 open_pages
    ≡ (done tt, sections_set)
unfolding apply_wx_sections protect_page page_flags see_from see_section see on_page choose_flags
    remap_page for_pages ◌>>=◌
sections_ran = refl

split_ran : apply_wx_split small_kernel 0x7f108000 8192 100 open_pages ≡ (done tt, split_set)
unfolding apply_wx_split split_page remap_page for_pages ◌>>=◌
split_ran = refl

verify-apply_wx_sections_example :
    PagesEnforced small_kernel 0x7f108000 8192 sections_set
    × (verify_wx small_kernel 0x7f108000 8192 sections_set ≡ (done tt, sections_set))
verify-apply_wx_sections_example =
    verify-apply_wx_sections small_kernel small_kernel-MmuLaws 0x7f108000 8192 (omega arith)
      (omega arith) small_elf small_shdrs 3 small_sec_addr open_pages sections_set sections_ran

verify-apply_wx_split_example :
    PagesEnforced small_kernel 0x7f108000 8192 split_set
    × (verify_wx small_kernel 0x7f108000 8192 split_set ≡ (done tt, split_set))
verify-apply_wx_split_example =
    verify-apply_wx_split small_kernel small_kernel-MmuLaws 0x7f108000 8192 (omega arith)
      (omega arith) 100 open_pages split_set split_ran

code_page :
    page_flags small_kernel small_elf 0x7f108000 0x7f108000 small_shdrs small_sec_addr 3 ≡ done 8
unfolding page_flags see_from see_section see on_page choose_flags
code_page = refl
