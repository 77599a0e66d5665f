-- ===== src/IwyuTool/Paths.antt =====
-- `normcase`, `is_subpath_of` and `is_msvc_driver` of tools/iwyu_tool.py.
pub mod Lineage
use for_montee.Base.{
  ℕ, Bool, true, false, ◌||◌, not, ◌&&◌, Text, codes, text_eq, starts_with, ends_with, rstrip,
  length, drop, [], ◌∷◌, if◌then◌else◌,
}

-- What the script reads of its platform: `sys.platform.startswith('win')` and `str.lower`, whose
-- table of characters is Python's.
pub record Platform : Type 0 where
  pub windows : Bool
  pub lower : Text → Text

-- `os.path.sep`
abbrev pub sep : Platform → ℕ
sep p = if p.windows then b'\\' else b'/'

unfoldable pub normcase : Platform → Text → Text
normcase p s = if p.windows then p.lower s else s

-- `is_subpath_of` behind the calls of `normcase`.
unfoldable pub is_subpath : ℕ → Text → Text → Bool
unfolding text_eq starts_with rstrip
is_subpath c path parent =
    if text_eq path parent
    then true
    else if not (starts_with path parent)
    then false
    else starts_with (drop (length (rstrip c parent)) path) (c ∷ [])

unfoldable pub is_subpath_of : Platform → Text → Text → Bool
unfolding normcase is_subpath
is_subpath_of p path parent = is_subpath (sep p) (normcase p path) (normcase p parent)

unfoldable pub is_msvc_driver : Platform → Text → Bool
unfolding normcase ends_with
is_msvc_driver p compile_command =
    let c = normcase p compile_command in
    if ends_with c (codes "cl.exe") then true else ends_with c (codes "clang-cl")
