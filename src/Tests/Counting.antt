-- ===== src/Tests/Counting.antt =====
-- A concrete kernel that keeps count of what it has handed out, and the laws it keeps.
use lk_modloader.Base.{
  ℕ, ◌+◌, ◌-◌, ◌*◌, ◌/◌, ◌%◌, ◌^◌, ◌≤◌, ◌<◌, ◌≡◌, ◌∙◌, refl, sym, ap, subst, arith, [], ◌∷◌, none,
  some, true, false, if◌then◌else◌, ◌==◌, inl, inr, Bool-cases, two-pow-pos,
}
use native.Mathlib.Nat.{mod-lt, mod-add-div', mod-eq_of_lt, mul-mod_left}
use lk_modloader.Status.{ok, err, err_no_memory, err_not_found}
use lk_modloader.Kernel.{Kernel, PageLaws, RoundupLaws}
use lk_modloader.Kernel.Resources.{
  Resource, region, block, file, device, Held, with_held, Agrees, Gains, ResourceLaws,
}

-- Hand `r` out, or refuse if it is held.
abbrev hand_out : {A : Type 0} → Resource → A → A → Held → A × Held
hand_out r good bad os = if os r then (bad, os) else (good, with_held os r true)

abbrev pub counting_kernel : Kernel
counting_kernel = record {
  Os = Held;
  page_size = 4096;
  roundup = λ a b. (a + (b - 1)) / b * b % 2 ^ 32;
  perm_ro = 8;
  perm_no_execute = 16;
  vmm_alloc = λ os size va. hand_out (region va) (ok va) (err err_no_memory) os;
  vmm_free_region = λ os va. (ok tt, with_held os (region va) false);
  arch_mmu_query = λ os va. ok (va, 0);
  arch_mmu_map = λ os va pa n flags. (ok tt, os);
  arch_sync_cache_range = λ os start len. os;
  malloc = λ os size. hand_out (block 0x1000) 0x1000 0 os;
  calloc = λ os n size. hand_out (block 0x2000) 0x2000 0 os;
  free = λ os a. if a == 0 then os else with_held os (block a) false;
  bio_open = λ os name. hand_out (device 1) (some 1) none os;
  bio_close = λ os dev. with_held os (device dev) false;
  fs_mount = λ os path fs dev. (ok tt, os);
  fs_open_file = λ os path. hand_out (file 3) (ok 3) (err err_not_found) os;
  fs_stat_file = λ os fh. (ok (record { is_dir = false; size = 2 }), os);
  fs_read_file = λ os fh offset len. (ok (7 ∷ 9 ∷ []), os);
  fs_close_file = λ os fh. with_held os (file fh) false;
  call = λ os a. (42, os);
}

-- Nothing is held.
abbrev pub nothing_held : Held
nothing_held r = false

taken :
    (os os' : Held) (r s : Resource)
    → os r ≡ false
    → os' ≡ with_held os r true
    → r ≡ s
    → Gains os s os'
taken os os' r s free e same =
    subst (λ t. Gains os t os') same (subst (Gains os r) (sym e) (free, λ t. refl))

same_held : (os os' : Held) → os' ≡ os → Agrees os' os
same_held os os' e r = ap (λ (f : Held). f r) e

pub counting_kernel-ResourceLaws : ResourceLaws counting_kernel
counting_kernel-ResourceLaws = record {
  held = λ os. os;
  vmm_alloc_ok = λ os size va base {os'} h. elim (Bool-cases (os (region va))) [
    | inl live ↦ absurd (ground (arith, live, h))
    | inr free ↦
        taken os os' (region va) (region base) free (ground (arith, free, h))
          (ground (arith, free, h))
  ];
  vmm_alloc_err = λ os size va e {os'} h. elim (Bool-cases (os (region va))) [
    | inl live ↦ same_held os os' (ground (arith, live, h))
    | inr free ↦ absurd (ground (arith, free, h))
  ];
  vmm_free_held = λ os va live. refl;
  vmm_free_ok = λ os va {os'} h. same_held _ os' (ground (arith, h));
  vmm_free_err = λ os va e {os'} h. absurd (ground (arith, h));
  malloc_given = λ os size given. elim (Bool-cases (os (block 0x1000))) [
    | inl live ↦ absurd (ground (arith, live, given))
    | inr free ↦ taken os _ (block 0x1000) _ free (ground (arith, free)) (ground (arith, free))
  ];
  malloc_null = λ os size null. elim (Bool-cases (os (block 0x1000))) [
    | inl live ↦ same_held os _ (ground (arith, live))
    | inr free ↦ absurd (ground (arith, free, null))
  ];
  calloc_given = λ os n size given. elim (Bool-cases (os (block 0x2000))) [
    | inl live ↦ absurd (ground (arith, live, given))
    | inr free ↦ taken os _ (block 0x2000) _ free (ground (arith, free)) (ground (arith, free))
  ];
  calloc_null = λ os n size null. elim (Bool-cases (os (block 0x2000))) [
    | inl live ↦ same_held os _ (ground (arith, live))
    | inr free ↦ absurd (ground (arith, free, null))
  ];
  free_block = λ os p given. same_held _ _ (ground (arith, given));
  free_null = λ os r. refl;
  bio_open_some = λ os name d {os'} h. elim (Bool-cases (os (device 1))) [
    | inl live ↦ absurd (ground (arith, live, h))
    | inr free ↦
        taken os os' (device 1) (device d) free (ground (arith, free, h)) (ground (arith, free, h))
  ];
  bio_open_none = λ os name {os'} h. elim (Bool-cases (os (device 1))) [
    | inl live ↦ same_held os os' (ground (arith, live, h))
    | inr free ↦ absurd (ground (arith, free, h))
  ];
  bio_close_lem = λ os d r. refl;
  fs_open_ok = λ os path fh {os'} h. elim (Bool-cases (os (file 3))) [
    | inl live ↦ absurd (ground (arith, live, h))
    | inr free ↦
        taken os os' (file 3) (file fh) free (ground (arith, free, h)) (ground (arith, free, h))
  ];
  fs_open_err = λ os path e {os'} h. elim (Bool-cases (os (file 3))) [
    | inl live ↦ same_held os os' (ground (arith, live, h))
    | inr free ↦ absurd (ground (arith, free, h))
  ];
  fs_close_lem = λ os fh r. refl;
  fs_mount_same = λ os path fs dev r. refl;
  fs_stat_same = λ os fh r. refl;
  fs_read_same = λ os fh offset len r. refl;
  mmu_map_same = λ os va pa n flags r. refl;
  sync_same = λ os start len r. refl;
}

pub counting_kernel-PageLaws : PageLaws counting_kernel
counting_kernel-PageLaws = record {
  page_pos = omega arith;
  roundup_pages = λ a. ((a + 4095) / 4096 % 2 ^ 20, omega arith);
  roundup_small = λ a. omega arith;
}

-- What the rounding gives before the wrap.
rounded : (a b : ℕ) → 0 < b → (a ≤ (a + (b - 1)) / b * b) × ((a + (b - 1)) / b * b < a + b)
rounded a b pos =
    let whole = mod-add-div' (a + (b - 1)) b in
    let rest : (a + (b - 1)) % b < b = mod-lt (a + (b - 1)) pos in
    (omega (arith, whole, rest, pos), omega (arith, whole, pos))

no_wrap :
    (a b : ℕ) → 0 < b → a + b ≤ 2 ^ 32 → (a + (b - 1)) / b * b % 2 ^ 32 ≡ (a + (b - 1)) / b * b
no_wrap a b pos fits = mod-eq_of_lt (omega (arith, rounded a b pos, fits))

pub counting_kernel-RoundupLaws : RoundupLaws counting_kernel
counting_kernel-RoundupLaws = record {
  roundup_ge = λ a b pos fits. omega (arith, no_wrap a b pos fits, rounded a b pos);
  roundup_lt = λ a b pos fits. omega (arith, no_wrap a b pos fits, rounded a b pos);
  roundup_aligned = λ a e fits.
      ap (λ x. x % 2 ^ e) (no_wrap a (2 ^ e) (two-pow-pos e) fits)
      ∙ mul-mod_left ((a + (2 ^ e - 1)) / 2 ^ e) (2 ^ e);
}
