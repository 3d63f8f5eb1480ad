-- ===== src/Controller/Dynamic.antt =====
-- Objects of any type: how they are compared and updated, over dynamic maps (Fields) and over Go
-- types (Typed).
pub mod Fields
pub mod Typed
