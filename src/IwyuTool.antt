-- ===== src/IwyuTool.antt =====
-- tools/iwyu_tool.py: runs include-what-you-use over a compilation database.
pub mod Bootstrap
pub mod WinSplit
pub mod Execute
pub mod Paths
pub mod Regex
pub mod Formatter
pub mod Database
pub mod Main
pub mod Help
pub mod Options
