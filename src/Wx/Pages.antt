-- ===== src/Wx/Pages.antt =====
-- The page loop: with enough room below 2 ^ 32 it visits each page once and ends.
use lk_modloader.Base.{
  ℕ, zero, suc, ◌+◌, ◌-◌, ◌*◌, ◌^◌, ◌≤◌, ◌<◌, ◌≡◌, arith, ltb, ltb→lt, Bool-cases, inl, inr, add32,
}
use lk_modloader.Outcome.{done, Outcome-cases}
use lk_modloader.Action.{Action, ◌>>=◌}
use lk_modloader.Wx.{for_pages}

module _ {S : Type 0} (page_size map_size : ℕ) (body : ℕ → Action S (Unit {0})) (P : ℕ → S → Type 0)
    (page_pos : 0 < page_size) (room : map_size + page_size ≤ 2 ^ 32) where
  next_page :
      (n : ℕ) → n * page_size < map_size → add32 (n * page_size) page_size ≡ suc n * page_size
  next_page n more = omega arith

  -- `P n` holds when the pages before the `n`-th have been visited. If each round that returns takes
  -- `P n` to `P (n + 1)`, a loop that returns has visited every page.
  pub for_pages_visits :
      ((n : ℕ) (s s' : S)
        → P n s
        → n * page_size < map_size
        → body (n * page_size) s ≡ (done tt, s')
        → P (suc n) s')
      → (fuel n : ℕ) (s s' : S) → P n s
      → for_pages page_size map_size body fuel (n * page_size) s ≡ (done tt, s')
      → (last : ℕ) × (map_size ≤ last * page_size) × P last s'
  unfolding for_pages ◌>>=◌
  for_pages_visits step zero n s s' p h = absurd (ground arith)
  for_pages_visits step (suc fuel) n s s' p h = elim (Bool-cases (ltb (n * page_size) map_size)) [
    | inl more ↦
        let s₁ = (body (n * page_size) s).1 in
        elim (Outcome-cases (body (n * page_size) s).0) [
          | inl (u, e) ↦
              let returned : body (n * page_size) s ≡ (done tt, s₁) = ground (arith, e) in
              let rest : for_pages page_size map_size body fuel (suc n * page_size) s₁
                  ≡ (done tt, s') =
                ground (arith, more, e, next_page n (ltb→lt _ _ more)) in
              for_pages_visits step fuel (suc n) s₁ s' (step n s s₁ p (ltb→lt _ _ more) returned)
                rest
          | inr bad ↦ absurd (ground (arith, more, bad))
        ]
    | inr stop ↦ let same : s' ≡ s = ground (arith, stop) in (n, ground (arith, stop), rw same p)
  ]

-- If each round returns and changes nothing, so does the loop, given fuel for the pages left.
pub for_pages_reads :
    {S : Type 0} (page_size map_size : ℕ) (body : ℕ → Action S (Unit {0})) (s : S)
    → 0 < page_size
    → map_size + page_size ≤ 2 ^ 32
    → ((n : ℕ) → n * page_size < map_size → body (n * page_size) s ≡ (done tt, s))
    → (fuel n : ℕ) → map_size - n * page_size < fuel
    → for_pages page_size map_size body fuel (n * page_size) s ≡ (done tt, s)
unfolding for_pages ◌>>=◌
for_pages_reads page_size map_size body s pos room each zero n h = absurd (omega arith)
for_pages_reads page_size map_size body s pos room each (suc fuel) n h =
    elim (Bool-cases (ltb (n * page_size) map_size)) [
      | inl more ↦
          let next : add32 (n * page_size) page_size ≡ suc n * page_size =
            omega (arith, ltb→lt _ _ more) in
          let left : map_size - suc n * page_size < fuel = omega (arith, ltb→lt _ _ more) in
          ground (
            arith,
            more,
            each n (ltb→lt _ _ more),
            next,
            for_pages_reads page_size map_size body s pos room each fuel (suc n) left,
          )
      | inr stop ↦ ground (arith, stop)
    ]
