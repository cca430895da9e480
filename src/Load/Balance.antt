-- ===== src/Load/Balance.antt =====
-- What is held after the kernel and the heap were asked for a mapping or a block, and after these were
-- given back.
use lk_modloader.Base.{
  ℕ, ◌≡◌, ◌≢◌, refl, ap, ◌∙◌, ◌⊎◌, inl, inr, Option, none, some, Bool, true, false, arith, ◌==◌,
  Bool-cases,
}
use lk_modloader.Status.{Result, ok, err, Error}
use lk_modloader.Outcome.{of_result}
use lk_modloader.Memory.{Memory}
use lk_modloader.Action.{Action, guard}
use lk_modloader.Action.Rules.{Maintains}
use lk_modloader.Action.Triple.{
  Holds, After, Holds-pure, Holds-gets, Holds-if, Holds-bind, Holds-on_error, Keeps-lift,
}
use lk_modloader.Elf.{Elf}
use lk_modloader.Kernel.{Kernel}
use lk_modloader.Kernel.Resources.{
  Resource, region, block, Held, with_held, Agrees, Gains, ResourceLaws,
}
use lk_modloader.Kernel.Held.{held_gained, gain_lose, Gains-over}
use lk_modloader.World.{World, on_os, on_mem, call_service, ask, free_region, free_heap}
use lk_modloader.Load.Stable.{Stable}
use lk_modloader.Rel.{resolve_symtab, resolve_all}
use lk_modloader.Rel.Layout.{SymTab}

module _ (k : Kernel) (l : ResourceLaws k) where
  -- The state holds this.
  abbrev pub Has : Held → World k → Type 0
  Has h w = Agrees (l.held w.os) h

  -- Beside `h`, a resource that `h` does not have.
  abbrev pub HasMore : Held → Resource → World k → Type 0
  HasMore h r w = (h r ≡ false) × Has (with_held h r true) w

  -- A heap pointer that may be null.
  abbrev pub HasBlock : Held → ℕ → World k → Type 0
  HasBlock h p w = ((p ≡ 0) × Has h w) ⊎ ((p ≢ 0) × HasMore h (block p) w)

  -- A module is loaded, and its mapping is held beside `h`.
  abbrev pub HasModule : Held → World k → Type 0
  HasModule h w = (w.current.loaded ≡ true) × HasMore h (region w.current.base) w

  pub Has-Stable : (h : Held) → Stable k (Has h)
  Has-Stable h = record {
    mem = λ f w p. p;
    index = λ t w small p. p;
    map = λ va pa n flags w p r. l.mmu_map_same w.os va pa n flags r ∙ p r;
    sync = λ start len w p r. l.sync_same w.os start len r ∙ p r;
  }

  pub free_heap-HasBlock :
      (h : Held) (p : ℕ) (w : World k) → HasBlock h p w → Has h (free_heap k p w)
  free_heap-HasBlock h p w (inl (null, has)) =
      let at : k.free w.os p ≡ k.free w.os 0 = ap (k.free w.os) null in
      λ r. ap (λ os. l.held os r) at ∙ l.free_null w.os r ∙ has r
  free_heap-HasBlock h p w (inr (given, (fresh, has))) =
      gain_lose (l.held (k.free w.os p)) (l.held w.os) h (block p) fresh has
        (l.free_block w.os p given)

  pub free_region-HasMore :
      (h : Held) (base : ℕ) (w : World k) → HasMore h (region base) w → Has h (free_region k base w)
  free_region-HasMore h base w (fresh, has) =
      let live : l.held w.os (region base) ≡ true =
        has (region base) ∙ held_gained h (region base) in
      let freed : k.vmm_free_region w.os base ≡ (ok tt, (k.vmm_free_region w.os base).1) =
        ground (arith, l.vmm_free_held w.os base live) in
      gain_lose _ (l.held w.os) h (region base) fresh has (l.vmm_free_ok w.os base freed)

  -- A service that hands something out or fails.
  pub take-Holds :
      (f : k.Os → Result ℕ × k.Os) (made : ℕ → Resource)
      → ((os : k.Os) (x : ℕ) (os' : k.Os)
          → f os ≡ (ok x, os')
          → Gains (l.held os) (made x) (l.held os'))
      → ((os : k.Os) (e : Error) (os' : k.Os)
          → f os ≡ (err e, os')
          → Agrees (l.held os') (l.held os))
      → (h : Held) → Holds (Has h) (call_service k f) (λ x w. HasMore h (made x) w) (Has h)
  unfolding call_service on_os
  take-Holds f made given refused h = record { run = λ w p. after w p (f w.os).0 (f w.os).1 refl }
    where
      after :
          (w : World k)
          → Has h w
          → (r : Result ℕ) (os' : k.Os) → f w.os ≡ (r, os')
          → After (λ x w. HasMore h (made x) w) (Has h) (of_result r, record w { os = os' })
      after w p (ok x) os' e =
          Gains-over (l.held os') (l.held w.os) h (made x) p (given w.os x os' e)
      after w p (err x) os' e = λ r. refused w.os x os' e r ∙ p r

  -- An allocation on the heap.
  pub allocate-Holds :
      (f : k.Os → ℕ × k.Os)
      → ((os : k.Os) → (f os).0 ≢ 0 → Gains (l.held os) (block (f os).0) (l.held (f os).1))
      → ((os : k.Os) → (f os).0 ≡ 0 → Agrees (l.held (f os).1) (l.held os))
      → (h : Held) → Holds (Has h) (ask k f) (λ p w. HasBlock h p w) (Has h)
  unfolding ask on_os
  allocate-Holds f given null h = record {
    run = λ w p. elim (Bool-cases ((f w.os).0 == 0)) [
      | inl e ↦
          let zero_ptr : (f w.os).0 ≡ 0 = ground (arith, e) in
          inl (zero_ptr, λ r. null w.os zero_ptr r ∙ p r)
      | inr e ↦
          let some_ptr : (f w.os).0 ≢ 0 = λ z. ground (arith, e, z) in
          inr (
            some_ptr,
            Gains-over (l.held (f w.os).1) (l.held w.os) h (block (f w.os).0) p
                (given w.os some_ptr),
          )
    ];
  }

  -- The guard after an allocation.
  pub guard_null-Holds :
      (h : Held) (p : ℕ) (e : Error)
      → Holds (HasBlock h p) (guard (p == 0) e) (λ u w. (p ≢ 0) × HasMore h (block p) w) (Has h)
  unfolding guard
  guard_null-Holds h p e = record { run = λ w b. after w b (p == 0) refl }
    where
      after :
          (w : World k)
          → HasBlock h p w
          → (t : Bool) → (p == 0) ≡ t
          → After (λ u w. (p ≢ 0) × HasMore h (block p) w) (Has h) (guard t e w)
      after w (inl (null, has)) true eq = has
      after w (inl (null, has)) false eq = absurd (ground (arith, null, eq))
      after w (inr (given, more)) true eq = absurd (ground (arith, given, eq))
      after w (inr (given, more)) false eq = (given, more)

  resolve_symtab-Holds :
      (elf : Elf) (add_addr : ℕ) (h : Held) (t : SymTab)
      → Holds (Has h) (resolve_symtab k elf add_addr t) (λ p w. HasBlock h p.0 w) (Has h)
  unfolding resolve_symtab
  resolve_symtab-Holds elf add_addr h t = Holds-if _ _ _ (Holds-pure _ (λ w p. inl (refl, p))) (
      Holds-bind _ _
        (allocate-Holds _ (λ os. l.calloc_given os t.sym_count 4)
          (λ os. l.calloc_null os t.sym_count 4) h)
        (λ ptr. Holds-bind _ _ (guard_null-Holds h ptr _) (λ u.
          Holds-bind {R = λ t w. (ptr ≢ 0) × HasMore h (block ptr) w} _ _ (Holds-gets _ (λ w b. b))
            (λ table.
              Holds-bind _ _
                (Holds-on_error _ _ (λ w b. free_heap-HasBlock h ptr w (inr b)) (Keeps-lift _))
                (λ addrs. Holds-pure _ (λ w b. inr b))))))

  pub resolve_all-Holds :
      (elf : Elf) (add_addr : ℕ) (h : Held) (symtab : Option SymTab)
      → Holds (Has h) (resolve_all k elf add_addr symtab) (λ p w. HasBlock h p.0 w) (Has h)
  unfolding resolve_all
  resolve_all-Holds elf add_addr h none = Holds-pure _ (λ w p. inl (refl, p))
  resolve_all-Holds elf add_addr h (some t) = resolve_symtab-Holds elf add_addr h t

  pub on_mem-HasBlock :
      {A : Type 0} (h : Held) (p : ℕ) (m : Action Memory A) → Maintains (HasBlock h p) (on_mem k m)
  unfolding on_mem
  on_mem-HasBlock h p m = record { run = λ w b. b }

  pub vmm_alloc-Holds :
      (h : Held) (size va : ℕ)
      → Holds
          (Has h)
          (call_service k (λ os. k.vmm_alloc os size va))
          (λ base w. HasMore h (region base) w)
          (Has h)
  vmm_alloc-Holds h size va =
      take-Holds _ region (λ os x os' e. l.vmm_alloc_ok os size va x e)
        (λ os x os' e. l.vmm_alloc_err os size va x e) h
