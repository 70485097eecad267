-- ===== src/Examples.antt =====
-- Concrete runs: each theorem of the library with hypotheses is applied at an input where they hold.
mod Texts
mod Sheets
mod Checked
mod Composed
mod Updates
mod Binaries
mod Accesses
