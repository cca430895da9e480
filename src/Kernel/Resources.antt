-- ===== src/Kernel/Resources.antt =====
-- What the kernel and the heap have handed out and not been given back: mappings, heap blocks, open
-- files and open block devices.
use lk_modloader.Base.{ℕ, ◌≡◌, ◌≢◌, Bool, true, false, arith, ◌==◌, if◌then◌else◌, none, some}
use lk_modloader.Status.{ok, err, Error}
use lk_modloader.Elf.{Name}
use lk_modloader.Kernel.{Kernel}

pub data Resource : Type 0 where
  region block file device : ℕ → Resource

unfoldable pub same : Resource → Resource → Bool
same (region a) (region b) = a == b
same (block a) (block b) = a == b
same (file a) (file b) = a == b
same (device a) (device b) = a == b
same _ _ = false

pub same_refl : (r : Resource) → same r r ≡ true
unfolding same
same_refl (region a) = ground arith
same_refl (block a) = ground arith
same_refl (file a) = ground arith
same_refl (device a) = ground arith

pub eq_of_same : (r s : Resource) → same r s ≡ true → r ≡ s
unfolding same
eq_of_same (region a) (region b) h = ground arith
eq_of_same (region a) (block b) h = ground arith
eq_of_same (region a) (file b) h = ground arith
eq_of_same (region a) (device b) h = ground arith
eq_of_same (block a) (region b) h = ground arith
eq_of_same (block a) (block b) h = ground arith
eq_of_same (block a) (file b) h = ground arith
eq_of_same (block a) (device b) h = ground arith
eq_of_same (file a) (region b) h = ground arith
eq_of_same (file a) (block b) h = ground arith
eq_of_same (file a) (file b) h = ground arith
eq_of_same (file a) (device b) h = ground arith
eq_of_same (device a) (region b) h = ground arith
eq_of_same (device a) (block b) h = ground arith
eq_of_same (device a) (file b) h = ground arith
eq_of_same (device a) (device b) h = ground arith

-- Which resources are held.
abbrev pub Held : Type 0
Held = Resource → Bool

abbrev pub with_held : Held → Resource → Bool → Held
with_held h r b s = if same r s then b else h s

abbrev pub Agrees : Held → Held → Type 0
Agrees g h = (r : Resource) → g r ≡ h r

-- The change from `g` to `h`: a resource that was not held is, and one that was is not.
abbrev pub Gains : Held → Resource → Held → Type 0
Gains g r h = (g r ≡ false) × Agrees h (with_held g r true)

abbrev pub Loses : Held → Resource → Held → Type 0
Loses g r h = Agrees h (with_held g r false)

-- What the loader relies on of the services that hand out and take back.
pub record ResourceLaws (k : Kernel) : Type 1 where
  pub held : k.Os → Held
  pub vmm_alloc_ok :
      (os : k.Os) (size va base : ℕ) {os' : k.Os}
      → k.vmm_alloc os size va ≡ (ok base, os')
      → Gains (held os) (region base) (held os')
  pub vmm_alloc_err :
      (os : k.Os) (size va : ℕ) (e : Error) {os' : k.Os}
      → k.vmm_alloc os size va ≡ (err e, os')
      → Agrees (held os') (held os)
  -- A region that is held can be freed.
  pub vmm_free_held :
      (os : k.Os) (va : ℕ) → held os (region va) ≡ true → (k.vmm_free_region os va).0 ≡ ok tt
  pub vmm_free_ok :
      (os : k.Os) (va : ℕ) {os' : k.Os}
      → k.vmm_free_region os va ≡ (ok tt, os')
      → Loses (held os) (region va) (held os')
  pub vmm_free_err :
      (os : k.Os) (va : ℕ) (e : Error) {os' : k.Os}
      → k.vmm_free_region os va ≡ (err e, os')
      → Agrees (held os') (held os)
  pub malloc_given :
      (os : k.Os) (size : ℕ)
      → (k.malloc os size).0 ≢ 0
      → Gains (held os) (block (k.malloc os size).0) (held (k.malloc os size).1)
  pub malloc_null :
      (os : k.Os) (size : ℕ)
      → (k.malloc os size).0 ≡ 0
      → Agrees (held (k.malloc os size).1) (held os)
  pub calloc_given :
      (os : k.Os) (n size : ℕ)
      → (k.calloc os n size).0 ≢ 0
      → Gains (held os) (block (k.calloc os n size).0) (held (k.calloc os n size).1)
  pub calloc_null :
      (os : k.Os) (n size : ℕ)
      → (k.calloc os n size).0 ≡ 0
      → Agrees (held (k.calloc os n size).1) (held os)
  pub free_block : (os : k.Os) (p : ℕ) → p ≢ 0 → Loses (held os) (block p) (held (k.free os p))
  pub free_null : (os : k.Os) → Agrees (held (k.free os 0)) (held os)
  pub bio_open_some :
      (os : k.Os) (name : Name) (d : ℕ) {os' : k.Os}
      → k.bio_open os name ≡ (some d, os')
      → Gains (held os) (device d) (held os')
  pub bio_open_none :
      (os : k.Os) (name : Name) {os' : k.Os}
      → k.bio_open os name ≡ (none, os')
      → Agrees (held os') (held os)
  pub bio_close_lem : (os : k.Os) (d : ℕ) → Loses (held os) (device d) (held (k.bio_close os d))
  pub fs_open_ok :
      (os : k.Os) (path : Name) (fh : ℕ) {os' : k.Os}
      → k.fs_open_file os path ≡ (ok fh, os')
      → Gains (held os) (file fh) (held os')
  pub fs_open_err :
      (os : k.Os) (path : Name) (e : Error) {os' : k.Os}
      → k.fs_open_file os path ≡ (err e, os')
      → Agrees (held os') (held os)
  pub fs_close_lem : (os : k.Os) (fh : ℕ) → Loses (held os) (file fh) (held (k.fs_close_file os fh))
  pub fs_mount_same :
      (os : k.Os) (path fs dev : Name) → Agrees (held (k.fs_mount os path fs dev).1) (held os)
  pub fs_stat_same : (os : k.Os) (fh : ℕ) → Agrees (held (k.fs_stat_file os fh).1) (held os)
  pub fs_read_same :
      (os : k.Os) (fh offset len : ℕ) → Agrees (held (k.fs_read_file os fh offset len).1) (held os)
  pub mmu_map_same :
      (os : k.Os) (va pa n flags : ℕ) → Agrees (held (k.arch_mmu_map os va pa n flags).1) (held os)
  pub sync_same :
      (os : k.Os) (start len : ℕ) → Agrees (held (k.arch_sync_cache_range os start len)) (held os)
