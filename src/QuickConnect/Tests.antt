-- ===== src/QuickConnect/Tests.antt =====
-- An address with a sign in the user's name, and some that are refused.
use tethra.Paths.{last_index_of}
use tethra.Base.{codes, is_space, none, refl, some, trim, ◌++◌, ◌∷◌, ◌≡◌}
use tethra.QuickConnect.{draft, parse_quick_connect}
use tethra.QuickConnect.RoundTrip.{parse_quick_connect-address}

refused_port : parse_quick_connect (codes "bob@box:70000") ≡ none
unfolding parse_quick_connect trim last_index_of is_space
refused_port = refl

no_user : parse_quick_connect (codes "@box") ≡ none
unfolding parse_quick_connect trim last_index_of is_space
no_user = refl

parse_quick_connect-address_example :
    parse_quick_connect (codes "bob@corp" ++ b'@' ∷ (codes "box" ++ b':' ∷ codes "2222"))
    ≡ some (draft (codes "bob@corp") (codes "box") 2222)
unfolding is_space
parse_quick_connect-address_example =
    parse_quick_connect-address (codes "bob@corp") (codes "box") (codes "2222") refl refl refl refl
      refl
