-- ===== src/Output.antt =====
-- internal/output, the presentation layer.
pub mod Text
pub mod Wrap
pub mod State
pub mod Alloc
pub mod Quote
pub mod Run
pub mod Log
