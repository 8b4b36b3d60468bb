-- ===== src/Rust.antt =====
-- The parts of Rust's standard library that the proxy computes with: texts, parsing of unsigned
-- integers, and results.
pub mod Text
pub mod Number
pub mod Result
pub mod Float
