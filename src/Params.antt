-- ===== src/Params.antt =====
-- internal/params: placeholders of wizard definitions and typed parameter values.
pub mod Ascii
pub mod Filters
pub mod Values
pub mod Template
pub mod Render
pub mod Parameters
pub mod Examples
