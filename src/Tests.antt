-- ===== src/Tests.antt =====
-- Runs of the models on concrete inputs, and the theorems at inputs that meet their hypotheses.
pub mod Checks
pub mod Argparse
pub mod Paths
pub mod Loads
pub mod IwyuTool
pub mod Formatter
pub mod Database
pub mod ClangFormat
pub mod Host
pub mod Main
pub mod ClangTidy
pub mod TidyMain
