-- ===== src/Suppression/Tests.antt =====
-- Two sessions, one of them named.
use tethra.Base.{[], codes, ◌∷◌}
use tethra.Suppression.{Gates}

abbrev gates : Gates
gates = record { global_until = 3; until = (codes "a", 9) ∷ [] }
