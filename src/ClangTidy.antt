-- ===== src/ClangTidy.antt =====
-- tools/run-clang-tidy.py
pub mod Command
pub mod Fixes
pub mod Host
pub mod Locate
pub mod Main
pub mod Options
pub mod Workers
pub mod Script
