-- ===== src/Load/Kept.antt =====
-- The module and the export table, which only the end of a successful load writes.
use lk_modloader.Base.{◌≡◌}
use lk_modloader.Kernel.{Kernel}
use lk_modloader.Export.{Exports}
use lk_modloader.World.{World, Module}
use lk_modloader.Load.Indifferent.{Indifferent}

-- The module and the export table are these.
abbrev pub Same : (k : Kernel) → Module → Exports → World k → Type 0
Same k c t w = (w.current ≡ c) × (w.exports ≡ t)

pub Same-Indifferent : (k : Kernel) (c : Module) (t : Exports) → Indifferent k (Same k c t)
Same-Indifferent k c t = record {
  os = λ s w p. p;
  mem = λ f w p. p;
  mounted = λ b w p. p;
  index = λ t' w small p. p;
}
