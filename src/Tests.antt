-- ===== src/Tests.antt =====
-- Runs of the model at concrete inputs: instances of the theorems whose hypotheses hold there.
pub mod Words
pub mod Blocks
pub mod Images
pub mod Texts
pub mod Plans
pub mod Reads
pub mod Markup
pub mod Inlines
pub mod Files
