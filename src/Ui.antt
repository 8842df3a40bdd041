-- ===== src/Ui.antt =====
-- The terminal interface, internal/ui.
pub mod Screen
pub mod Layout
