-- ===== src/Load.antt =====
-- Theorems on loads as a whole: app/modloader/modloader_reloc.c and app/modloader/modloader.c.
pub mod Stable
pub mod Ending
pub mod Composed
pub mod Indifferent
pub mod Kept
pub mod Balance
pub mod Leak
pub mod Images
pub mod Accepted
pub mod Fetched
pub mod Released
pub mod Failed
pub mod Protected
pub mod Verified
pub mod Unload
pub mod Second
