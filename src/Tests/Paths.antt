-- ===== src/Tests/Paths.antt =====
-- The standard library's path functions on examples.
use for_montee.Base.{◌≡◌, refl, [], codes, normpath, dirname, extension, path_join}

normpath_runs :
    (normpath (codes "/b/./x/../../c.cc") ≡ codes "/c.cc")
    × (normpath (codes "a//b/../..") ≡ codes ".")
    × (normpath (codes "//a/../../b/") ≡ codes "//b")
    × (normpath (codes "../a/../..") ≡ codes "../..")
    × (normpath [] ≡ codes ".")
unfolding normpath
normpath_runs = (refl, refl, refl, refl, refl)

dirname_runs :
    (dirname (codes "/a/b") ≡ codes "/a")
    × (dirname (codes "/") ≡ codes "/")
    × (dirname (codes "//a//b") ≡ codes "//a")
    × (dirname (codes "a") ≡ codes "")
unfolding dirname
dirname_runs = (refl, refl, refl, refl)

extension_runs :
    (extension (codes "a.b/c.tar.gz") ≡ codes ".gz")
    × (extension (codes "a.b/c") ≡ codes "")
    × (extension (codes ".bashrc") ≡ codes "")
    × (extension (codes "..a.") ≡ codes ".")
unfolding extension
extension_runs = (refl, refl, refl, refl)

path_join_runs :
    (path_join (codes "a") (codes "b") ≡ codes "a/b")
    × (path_join (codes "a/") (codes "b") ≡ codes "a/b")
    × (path_join (codes "a") (codes "/b") ≡ codes "/b")
    × (path_join (codes "") (codes "b") ≡ codes "b")
unfolding path_join
path_join_runs = (refl, refl, refl, refl)
