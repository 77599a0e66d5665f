-- ===== src/ClangFormat.antt =====
-- tools/run-clang-format.py: runs clang-format over files and directories.
pub mod Excludes
pub mod Fnmatch
pub mod ListFiles
pub mod Colors
pub mod Diff
pub mod Main
pub mod Options
pub mod Program
pub mod Script
pub mod Trouble
