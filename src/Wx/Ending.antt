-- ===== src/Wx/Ending.antt =====
-- The page loops end: a mapping is a number of whole pages, so that the sum of the loop does not wrap.
use lk_modloader.Base.{
  ℕ, zero, suc, ◌+◌, ◌-◌, ◌*◌, ◌^◌, ◌≤◌, ◌<◌, ◌≡◌, subst, sym, arith, ltb, ltb→lt, List, Option,
  Bool-cases, inl, inr, add32,
}
use lk_modloader.Action.{Action}
use lk_modloader.Action.Ended.{
  IsEnded, Ends, Ends-bind, Ends-modify, Ends-gets, Ends-lift, Ends-pure, IsEnded-of_result,
  ended_rules, ends_rules,
}
use lk_modloader.Elf.{Elf, Shdr}
use lk_modloader.Kernel.{Kernel, PageLaws}
use lk_modloader.Wx.{
  for_pages, remap_page, split_page, protect_page, verify_page, apply_wx_split, apply_wx_sections,
  verify_wx, rounds,
}
use lk_modloader.Wx.Enforce.{mul_le, lt_of_mul}
use lk_modloader.Wx.PageFlags.{see_section, see_from, page_flags, Seen}

-- The size of a mapping: a number of whole pages, in 32 bits.
pub record IsPages (k : Kernel) (size : ℕ) : Type 0 where
  pub count : ℕ
  pub whole : size ≡ count * k.page_size
  pub small : size < 2 ^ 32

pub roundup-IsPages : (k : Kernel) (l : PageLaws k) (a : ℕ) → IsPages k (k.roundup a k.page_size)
roundup-IsPages k l a = record {
  count = (l.roundup_pages a).0;
  whole = (l.roundup_pages a).1;
  small = l.roundup_small a;
}

next_page : (n m p : ℕ) → n * p < m * p → suc n * p ≤ m * p
next_page n m p h = mul_le (suc n) m p (lt_of_mul n m p (m * p) h (omega arith))

module _ (k : Kernel) (l : PageLaws k) (map_size : ℕ) (pages : IsPages k map_size) where
  pub for_pages-Ends :
      {S : Type 0} (body : ℕ → Action S (Unit {0}))
      → ((off : ℕ) → Ends (body off))
      → (fuel n : ℕ) → map_size - n * k.page_size < fuel
      → Ends (for_pages k.page_size map_size body fuel (n * k.page_size))
  unfolding for_pages
  for_pages-Ends body each zero n h = absurd (omega arith)
  for_pages-Ends body each (suc fuel) n h = elim (Bool-cases (ltb (n * k.page_size) map_size)) [
    | inl more ↦
        let below : n * k.page_size < map_size = ltb→lt _ _ more in
        let next : suc n * k.page_size ≤ map_size = omega (
          arith,
          next_page n pages.count k.page_size (omega (arith, below, pages.whole)),
          pages.whole,
        ) in
        let step : add32 (n * k.page_size) k.page_size ≡ suc n * k.page_size =
          omega (arith, next, pages.small) in
        rw more (
          Ends-bind _ _ (each (n * k.page_size)) (λ u.
            subst (λ o. Ends (for_pages k.page_size map_size body fuel o)) (sym step)
              (for_pages-Ends body each fuel (suc n) (omega (arith, l.page_pos, below, next)))))
    | inr stop ↦ rw stop (Ends-pure tt)
  ]

  -- The loop from the first page, with a round for each byte and one more.
  loop-Ends :
      (body : ℕ → Action k.Os (Unit {0}))
      → ((off : ℕ) → Ends (body off))
      → Ends (for_pages k.page_size map_size body (rounds k map_size) 0)
  loop-Ends body each =
      subst (λ o. Ends (for_pages k.page_size map_size body (rounds k map_size) o)) (omega arith)
        (for_pages-Ends body each (rounds k map_size) 0 (omega arith))

  remap_page-Ends : (va flags : ℕ) → Ends (remap_page k va flags)
  unfolding remap_page
  remap_page-Ends va flags = Ends-bind _ _ (Ends-gets _) (λ pa.
      Ends-bind _ _ (Ends-lift _ (IsEnded-of_result _))
        (λ found. record { run = λ os. IsEnded-of_result _ }))

  pub apply_wx_split-Ends : (base rx_size : ℕ) → Ends (apply_wx_split k base map_size rx_size)
  unfolding apply_wx_split split_page
  apply_wx_split-Ends base rx_size =
      Ends-bind _ _ (loop-Ends _ (λ off. remap_page-Ends _ _)) (λ u. Ends-modify _)

  pub verify_wx-Ends : (base : ℕ) → Ends (verify_wx k base map_size)
  unfolding verify_wx verify_page
  verify_wx-Ends base = loop-Ends _ (λ off. search (ends_rules))

  module _ (elf : Elf) (shdrs : ℕ → Option Shdr) (shnum : ℕ) (sec_addr : List ℕ) where
    see_section-IsEnded :
        (base va : ℕ) (shdr : Shdr) (i : ℕ) (seen : Seen)
        → IsEnded (see_section k elf base va shdrs sec_addr shdr i seen)
    unfolding see_section
    see_section-IsEnded base va shdr i seen = search (ended_rules)

    see_from-IsEnded :
        (base va left i : ℕ) (seen : Seen)
        → IsEnded (see_from k elf base va shdrs sec_addr left i seen)
    unfolding see_from
    see_from-IsEnded base va zero i seen = tt
    see_from-IsEnded base va (suc left) i seen =
        search (ended_rules, see_section-IsEnded, see_from-IsEnded base va left (i + 1))

    page_flags-IsEnded : (base va : ℕ) → IsEnded (page_flags k elf base va shdrs sec_addr shnum)
    unfolding page_flags
    page_flags-IsEnded base va = search (ended_rules, see_from-IsEnded)

    pub apply_wx_sections-Ends :
        (base : ℕ) → Ends (apply_wx_sections k elf shdrs shnum sec_addr base map_size)
    unfolding apply_wx_sections protect_page
    apply_wx_sections-Ends base =
        Ends-bind _ _
          (loop-Ends _ (λ off.
            Ends-bind _ _ (Ends-lift _ (page_flags-IsEnded base _))
              (λ flags. remap_page-Ends _ flags)))
          (λ u. Ends-modify _)
