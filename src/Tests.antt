-- ===== src/Tests.antt =====
-- Tests: the theorems at concrete inputs.
mod Samples
mod Counting
mod CallCases
mod LayoutCases
mod LeakCases
mod RelocCases
mod TableCases
mod WxCases
mod LoadCases
