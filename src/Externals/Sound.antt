-- ===== src/Externals/Sound.antt =====
-- What the resolved addresses are.
use lk_modloader.Base.{
  ℕ, zero, suc, ◌+◌, ◌<◌, ◌≡◌, ◌≢◌, List, ◌∷◌, Option, some, false, arith, get_elem?, ap, ◌∙◌,
  Option-cases, inl, inr,
}
use lk_modloader.Outcome.{done, Outcome-cases}
use lk_modloader.Elf.{Elf, Sym, Name}
use lk_modloader.Export.{Exports, lookup_export}
use lk_modloader.Symbols.{not_exported}
use lk_modloader.Externals.{
  is_function, resolve_name, resolve_symbol, resolve_from, resolve_externals,
}

module _ (elf : Elf) (add_addr : ℕ) (table : Exports) (symstr : ℕ → Option Name)
    (syms : ℕ → Option Sym) where
  -- What a loop that returned has done in its first round.
  first_round :
      (left i : ℕ) (addrs : List ℕ)
      → resolve_from elf add_addr table symstr syms (suc left) i ≡ done addrs
      → (sym : Sym) × (a : ℕ) × (rest : List ℕ) × (syms i ≡ some sym)
        × (resolve_symbol elf add_addr table symstr sym ≡ done a)
        × (resolve_from elf add_addr table symstr syms left (i + 1) ≡ done rest)
        × (addrs ≡ a ∷ rest)
  unfolding resolve_from
  first_round left i addrs h = elim (Option-cases (syms i)) [
    | inl gone ↦ absurd (ground (arith, gone, h))
    | inr (sym, at) ↦ elim (Outcome-cases (resolve_symbol elf add_addr table symstr sym)) [
      | inl (a, here) ↦
          elim (Outcome-cases (resolve_from elf add_addr table symstr syms left (i + 1))) [
            | inl (rest, there) ↦
                (sym, a, rest, at, here, there, ground (arith, at, here, there, h))
            | inr bad ↦ absurd (ground (arith, at, here, bad, h))
          ]
      | inr bad ↦ absurd (ground (arith, at, bad, h))
    ]
  ]

  -- The entry of each symbol is what its round of the loop computes.
  resolve_from-entry :
      (left i j : ℕ) (addrs : List ℕ) (sym : Sym)
      → resolve_from elf add_addr table symstr syms left i ≡ done addrs
      → j < left
      → syms (i + j) ≡ some sym
      → (a : ℕ) × (get_elem? addrs j ≡ some a)
        × (resolve_symbol elf add_addr table symstr sym ≡ done a)
  resolve_from-entry zero i j addrs sym h lt at = absurd (omega arith)
  resolve_from-entry (suc left) i zero addrs sym h lt at =
      let (s, a, rest, here, value, more, eq) = first_round left i addrs h in
      let at' : syms i ≡ some sym = ap syms (omega arith) ∙ at in
      (a, ap (λ l. get_elem? l 0) eq, ground (arith, here, at', value))
  resolve_from-entry (suc left) i (suc j) addrs sym h lt at =
      let (s, a, rest, here, value, more, eq) = first_round left i addrs h in
      let at' : syms (i + 1 + j) ≡ some sym = ap syms (omega arith) ∙ at in
      let later = resolve_from-entry left (i + 1) j rest sym more (omega arith) at' in
      (later.0, ap (λ l. get_elem? l (suc j)) eq ∙ later.1, later.2)

  -- When resolve_externals succeeds, every undefined symbol that is global and not weak, and has a
  -- name, has an entry that is not 0: the address that the export table gives its name.
  pub resolve_externals_global :
      (sym_count i : ℕ) (addrs : List ℕ) (sym : Sym) (c : ℕ) (cs : Name)
      → resolve_externals elf add_addr table symstr syms sym_count ≡ done addrs
      → i < sym_count
      → syms i ≡ some sym
      → sym.st_shndx ≡ elf.shn_undef
      → not_exported elf sym ≡ false
      → elf.st_bind sym.st_info ≢ elf.stb_weak
      → symstr sym.st_name ≡ some (c ∷ cs)
      → (a : ℕ) × (get_elem? addrs i ≡ some a)
        × (a ≢ 0)
        × (a ≡ lookup_export add_addr table (c ∷ cs) (is_function elf add_addr table sym (c ∷ cs)))
  unfolding resolve_externals resolve_symbol resolve_name
  resolve_externals_global sym_count i addrs sym c cs h lt at undef visible strong named =
      let entry = resolve_from-entry sym_count 0 i addrs sym h lt (ap syms (omega arith) ∙ at) in
      let value : resolve_name elf add_addr table sym (c ∷ cs) ≡ done entry.0 =
        ground (arith, entry.2, undef, visible, named) in
      (
        entry.0,
        entry.1,
        λ zero_addr. ground (arith, value, zero_addr, strong),
        ground (arith, value, strong),
      )
