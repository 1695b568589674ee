-- ===== src/Paths/Tests.antt =====
-- Paths as the panes meet them, and the theorems at them.
use tethra.Base.{[], codes, refl, text_eq, ◌≡◌}
use tethra.Paths.{last_index_of, parent_path, strip_slashes}

parents :
    (parent_path (codes "/a/b//") ≡ codes "/a")
    × (parent_path (codes "/a") ≡ codes "/")
    × (parent_path (codes "a") ≡ codes ".")
    × (parent_path [] ≡ codes ".")
unfolding parent_path strip_slashes last_index_of text_eq
parents = (refl, refl, refl, refl)
