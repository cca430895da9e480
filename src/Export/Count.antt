-- ===== src/Export/Count.antt =====
-- How the loops of the export table change the number of used slots.
use lk_modloader.Base.{ℕ, ◌+◌, ◌≡◌, [], ◌∷◌, some, arith, Option-cases, inl, inr}
use lk_modloader.Elf.{Name}
use lk_modloader.Export.{Exports, replace_addr, fill_free, clear_slot}
use lk_modloader.Export.Table.{count_used}

pub count-replace :
    (name : Name) (addr : ℕ) (t : Exports) {t' : Exports}
    → replace_addr t name addr ≡ some t'
    → count_used t' ≡ count_used t
unfolding replace_addr count_used
count-replace name addr [] e = cc
count-replace name addr (slot ∷ rest) e = elim (Option-cases (replace_addr rest name addr)) [
  | inl gone ↦ ground (arith, gone)
  | inr (r, found) ↦ ground (arith, found, count-replace name addr rest found)
]

pub count-fill :
    (name : Name) (addr : ℕ) (t : Exports) {t' : Exports}
    → fill_free t name addr ≡ some t'
    → count_used t' ≡ count_used t + 1
unfolding fill_free count_used
count-fill name addr [] e = cc
count-fill name addr (slot ∷ rest) e = elim (Option-cases (fill_free rest name addr)) [
  | inl gone ↦ ground (arith, gone)
  | inr (r, found) ↦ ground (arith, found, count-fill name addr rest found)
]

pub count-clear :
    (name : Name) (t : Exports) {t' : Exports}
    → clear_slot t name ≡ some t'
    → count_used t ≡ count_used t' + 1
unfolding clear_slot count_used
count-clear name [] e = cc
count-clear name (slot ∷ rest) e = elim (Option-cases (clear_slot rest name)) [
  | inl gone ↦ ground (arith, gone)
  | inr (r, found) ↦ ground (arith, found, count-clear name rest found)
]
