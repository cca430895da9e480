-- ===== src/Wx/Enforce.antt =====
-- After either way of setting the permissions of a mapping, its check succeeds.
use lk_modloader.Base.{
  ℕ, suc, ◌+◌, ◌*◌, ◌/◌, ◌^◌, ◌≤◌, ◌<◌, ◌≡◌, ◌≢◌, ◌∙◌, subst, true, arith, ltb, ltb→lt, min, List,
  Option, Bool-cases, inl, inr, add32, ◌⊎◌, sym, ap,
}
use lk_modloader.Status.{ok, Result-cases}
use lk_modloader.Outcome.{done, Outcome-cases}
use lk_modloader.Action.{Action, ◌>>=◌, ◌>>◌, modify}
use lk_modloader.Elf.{Elf, Shdr}
use lk_modloader.Kernel.{Kernel, MmuLaws}
use lk_modloader.Wx.{
  for_pages, remap_page, wx_flags_ok, apply_wx_split, split_page, apply_wx_sections, protect_page,
  verify_wx, verify_page, rounds,
}
use lk_modloader.Wx.PageFlags.{mmu_rx, mmu_rw, page_flags}
use lk_modloader.Wx.Flags.{rx_ok, rw_ok, page_flags_ok}
use lk_modloader.Wx.Pages.{for_pages_visits, for_pages_reads}

-- The page at `va` is mapped, and not both writable and executable.
abbrev pub PageOk : (k : Kernel) → k.Os → ℕ → Type 0
PageOk k os va =
    (found : ℕ × ℕ) × (k.arch_mmu_query os va ≡ ok found) × (wx_flags_ok k found.1 ≡ true)

-- The first `n` pages of a mapping are.
abbrev pub PagesOk : (k : Kernel) → ℕ → ℕ → k.Os → Type 0
PagesOk k base n os = (i : ℕ) → i < n → PageOk k os (add32 base (i * k.page_size))

-- Every page of a mapping of `size` bytes is.
abbrev pub PagesEnforced : (k : Kernel) → ℕ → ℕ → k.Os → Type 0
PagesEnforced k base size os = (last : ℕ) × (size ≤ last * k.page_size) × PagesOk k base last os

pub mul_le : (a b p : ℕ) → a ≤ b → a * p ≤ b * p
mul_le a b p h = grind arith

div_ne : (a b p : ℕ) → 0 < p → a + p ≤ b → a / p ≢ b / p
div_ne a b p pos h e = omega (arith, ap (λ (t : ℕ). p * t) e)

pub lt_of_mul : (a b p m : ℕ) → a * p < m → m ≤ b * p → a < b
lt_of_mul a b p m h g = elim (Bool-cases (ltb a b)) [
  | inl less ↦ ltb→lt a b less
  | inr more ↦ absurd (omega (arith, mul_le b a p (ground (arith, more))))
]

zero_times : (p : ℕ) → 0 * p ≡ 0
zero_times p = omega arith

-- What ran before the last write of a sequence that returned.
before_modify :
    {S : Type 0} (m : Action S (Unit {0})) (f : S → S) (s s' : S)
    → (m >> modify f) s ≡ (done tt, s')
    → (m s ≡ (done tt, (m s).1)) × (s' ≡ f (m s).1)
unfolding ◌>>=◌
before_modify m f s s' h = elim (Outcome-cases (m s).0) [
  | inl (u, e) ↦ (ground (arith, e), ground (arith, e))
  | inr bad ↦ absurd (ground (arith, bad))
]

earlier_or_last : (i n : ℕ) → i < suc n → (i < n) ⊎ (i ≡ n)
earlier_or_last i n h = elim (Bool-cases (ltb i n)) [
  | inl less ↦ inl (ltb→lt i n less)
  | inr same ↦ inr (ground (arith, same))
]

module _ (k : Kernel) (laws : MmuLaws k) where
  remap_page_inv :
      (va flags : ℕ) (os os' : k.Os)
      → remap_page k va flags os ≡ (done tt, os')
      → (pa : ℕ) × (k.arch_mmu_map os va pa 1 flags ≡ (ok tt, os'))
  unfolding remap_page ◌>>=◌
  remap_page_inv va flags os os' h = elim (Result-cases (k.arch_mmu_query os va)) [
    | inl (found, e) ↦ elim (Result-cases (k.arch_mmu_map os va found.0 1 flags).0) [
      | inl (u, mapped) ↦ (found.0, ground (arith, e, mapped))
      | inr (x, failed) ↦ absurd (ground (arith, e, failed))
    ]
    | inr (x, failed) ↦ absurd (ground (arith, failed))
  ]

  remap_page_ok :
      (va flags : ℕ) (os os' : k.Os)
      → wx_flags_ok k flags ≡ true
      → remap_page k va flags os ≡ (done tt, os')
      → PageOk k os' va
  unfolding wx_flags_ok
  remap_page_ok va flags os os' safe h =
      let mapped = remap_page_inv va flags os os' h in
      let answer = laws.query-map_self os va mapped.0 flags mapped.1 in
      (answer.0, answer.1, ground (arith, answer.2, answer.3))

  remap_page_other :
      (va flags other : ℕ) (os os' : k.Os)
      → remap_page k va flags os ≡ (done tt, os')
      → other / k.page_size ≢ va / k.page_size
      → PageOk k os other
      → PageOk k os' other
  remap_page_other va flags other os os' h ne (found, at, safe) =
      let mapped = remap_page_inv va flags os os' h in
      (found, laws.query-map_other os va mapped.0 flags other mapped.1 ne ∙ at, safe)

  -- A round of either page loop gives its page safe permissions.
  split_round :
      (base rx_size off : ℕ) (s s' : k.Os)
      → split_page k base rx_size off s ≡ (done tt, s')
      → (flags : ℕ) × (wx_flags_ok k flags ≡ true)
        × (remap_page k (add32 base off) flags s ≡ (done tt, s'))
  unfolding split_page
  split_round base rx_size off s s' e = elim (Bool-cases (ltb off rx_size)) [
    | inl code ↦ (mmu_rx k, rx_ok k laws, ground (arith, code, e))
    | inr rest ↦ (mmu_rw k, rw_ok k laws, ground (arith, rest, e))
  ]

  protect_round :
      (elf : Elf) (shdrs : ℕ → Option Shdr) (shnum : ℕ) (sec_addr : List ℕ) (base off : ℕ)
      (s s' : k.Os)
      → protect_page k elf shdrs shnum sec_addr base off s ≡ (done tt, s')
      → (flags : ℕ) × (wx_flags_ok k flags ≡ true)
        × (remap_page k (add32 base off) flags s ≡ (done tt, s'))
  unfolding protect_page ◌>>=◌
  protect_round elf shdrs shnum sec_addr base off s s' e =
      elim (Outcome-cases (page_flags k elf base (add32 base off) shdrs sec_addr shnum)) [
        | inl (flags, chosen) ↦ (
          flags,
          page_flags_ok k laws elf base (add32 base off) shdrs sec_addr shnum chosen,
          ground (arith, chosen, e),
        )
        | inr bad ↦ absurd (ground (arith, bad, e))
      ]

  module _ (base map_size : ℕ) (below : base + map_size ≤ 2 ^ 32)
      (room : map_size + k.page_size ≤ 2 ^ 32) where
    -- Different pages of the mapping have different page numbers.
    different_page :
        (i n : ℕ)
        → i < n
        → n * k.page_size < map_size
        → add32 base (i * k.page_size) / k.page_size ≢ add32 base (n * k.page_size) / k.page_size
    different_page i n lt more e =
        let apart : suc i * k.page_size ≤ n * k.page_size = mul_le (suc i) n k.page_size lt in
        let a_eq : add32 base (i * k.page_size) ≡ base + i * k.page_size = omega arith in
        let b_eq : add32 base (n * k.page_size) ≡ base + n * k.page_size = omega arith in
        div_ne (base + i * k.page_size) (base + n * k.page_size) k.page_size laws.page_pos
          (omega arith) (ap (λ x. x / k.page_size) (sym a_eq) ∙ e ∙ ap (λ x. x / k.page_size) b_eq)

    -- A page loop whose rounds set safe permissions makes every page safe.
    loop_enforces :
        (body : ℕ → Action k.Os (Unit {0}))
        → ((off : ℕ) (os os' : k.Os)
            → body off os ≡ (done tt, os')
            → (flags : ℕ) × (wx_flags_ok k flags ≡ true)
              × (remap_page k (add32 base off) flags os ≡ (done tt, os')))
        → (fuel : ℕ) (os os' : k.Os)
        → for_pages k.page_size map_size body fuel 0 os ≡ (done tt, os')
        → (last : ℕ) × (map_size ≤ last * k.page_size) × PagesOk k base last os'
    loop_enforces body safe fuel os os' h =
        for_pages_visits k.page_size map_size body (PagesOk k base) laws.page_pos room step fuel 0
          os os' (λ i lt. absurd (omega arith))
          (ap (λ o. for_pages k.page_size map_size body fuel o os) (zero_times k.page_size) ∙ h)
      where
        step :
            (n : ℕ) (s s' : k.Os)
            → PagesOk k base n s
            → n * k.page_size < map_size
            → body (n * k.page_size) s ≡ (done tt, s')
            → PagesOk k base (suc n) s'
        step n s s' p more e i lt =
            let round = safe (n * k.page_size) s s' e in
            elim (earlier_or_last i n lt) [
              | inl earlier ↦
                  remap_page_other (add32 base (n * k.page_size)) round.0 _ s s' round.2
                    (different_page i n earlier more) (p i earlier)
              | inr same ↦
                  rw same
                    (remap_page_ok (add32 base (n * k.page_size)) round.0 s s' round.1 round.2)
            ]

    -- The check passes on a mapping whose pages are all safe.
    pub verify_passes :
        (last : ℕ) (os : k.Os)
        → map_size ≤ last * k.page_size
        → PagesOk k base last os
        → verify_wx k base map_size os ≡ (done tt, os)
    unfolding verify_wx
    verify_passes last os enough safe =
        sym (
          ap (λ o. for_pages k.page_size map_size (verify_page k base) (rounds k map_size) o os)
            (zero_times k.page_size))
        ∙ for_pages_reads k.page_size map_size (verify_page k base) os laws.page_pos room each
            (rounds k map_size) 0 (omega arith)
      where
        each :
            (n : ℕ)
            → n * k.page_size < map_size
            → verify_page k base (n * k.page_size) os ≡ (done tt, os)
        each n more =
            let page = safe n (lt_of_mul n last k.page_size map_size more enough) in
            unfold verify_page ◌>>=◌ in ground (arith, page.1, page.2)

    -- The cache maintenance after a page loop leaves its pages safe.
    pub sync_safe :
        (n start len : ℕ) (os : k.Os)
        → PagesOk k base n os
        → PagesOk k base n (k.arch_sync_cache_range os start len)
    sync_safe n start len os safe i lt =
        let page = safe i lt in (page.0, laws.query-sync os start len _ ∙ page.1, page.2)

    -- A page loop with safe rounds and cache maintenance after it, and then the check.
    enforce_verify :
        (body : ℕ → Action k.Os (Unit {0})) (fuel : ℕ)
        → ((off : ℕ) (os os' : k.Os)
            → body off os ≡ (done tt, os')
            → (flags : ℕ) × (wx_flags_ok k flags ≡ true)
              × (remap_page k (add32 base off) flags os ≡ (done tt, os')))
        → (start len : ℕ) (os os' : k.Os)
        → (for_pages k.page_size map_size body fuel 0
              >> modify (λ s. k.arch_sync_cache_range s start len))
            os
          ≡ (done tt, os')
        → PagesEnforced k base map_size os' × (verify_wx k base map_size os' ≡ (done tt, os'))
    enforce_verify body fuel safe start len os os' h =
        let ran = before_modify (for_pages k.page_size map_size body fuel 0) _ os os' h in
        let pages = loop_enforces body safe fuel os _ ran.0 in
        let synced = sync_safe pages.0 start len _ pages.2 in
        let safe' : PagesOk k base pages.0 os' =
          subst (PagesOk k base pages.0) (sym ran.1) synced in
        ((pages.0, pages.1, safe'), verify_passes pages.0 os' pages.1 safe')

    -- For a kernel that keeps the MMU laws, and a mapping that ends at or below 2 ^ 32 with a page
    -- to spare in a 32-bit size: when apply_wx_split succeeds, for any code size, every page of the
    -- mapping is mapped and not both writable and executable, and verify_wx then succeeds and
    -- changes nothing.
    pub verify-apply_wx_split :
        (rx_size : ℕ) (os os' : k.Os)
        → apply_wx_split k base map_size rx_size os ≡ (done tt, os')
        → PagesEnforced k base map_size os' × (verify_wx k base map_size os' ≡ (done tt, os'))
    unfolding apply_wx_split
    verify-apply_wx_split rx_size os os' h =
        enforce_verify (split_page k base rx_size') (rounds k map_size) (split_round base rx_size')
          base map_size os os' h
      where
        rx_size' : ℕ
        rx_size' = k.roundup (min rx_size map_size) k.page_size

    -- For a kernel that keeps the MMU laws, and a mapping that ends at or below 2 ^ 32 with a page
    -- to spare in a 32-bit size: when apply_wx_sections succeeds, every page of the mapping is
    -- mapped and not both writable and executable, and verify_wx then succeeds and changes nothing.
    pub verify-apply_wx_sections :
        (elf : Elf) (shdrs : ℕ → Option Shdr) (shnum : ℕ) (sec_addr : List ℕ) (os os' : k.Os)
        → apply_wx_sections k elf shdrs shnum sec_addr base map_size os ≡ (done tt, os')
        → PagesEnforced k base map_size os' × (verify_wx k base map_size os' ≡ (done tt, os'))
    unfolding apply_wx_sections
    verify-apply_wx_sections elf shdrs shnum sec_addr os os' h =
        enforce_verify (protect_page k elf shdrs shnum sec_addr base) (rounds k map_size)
          (protect_round elf shdrs shnum sec_addr base) base map_size os os' h
