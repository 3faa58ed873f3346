-- ===== src/Client/Locations.antt =====
-- client/default.py: the servers that `__init__` reads of LOCATION.
use django_redis.Prelude.{ℕ, List, [], ◌∷◌, Text, ◌==◌, if◌then◌else◌}
use django_redis.Exec.{Result, ok, raise, improperly_configured}

-- LOCATION: a text, or a list of texts.
pub data Location : Type 0 where
  location : Text → Location
  locations : List Text → Location

-- The first part gets one more character.
abbrev extend : ℕ → List Text → List Text
extend x [] = (x ∷ []) ∷ []
extend x (t ∷ ts) = (x ∷ t) ∷ ts

-- s.split(c)
unfoldable pub split : ℕ → Text → List Text
split c [] = [] ∷ []
split c (x ∷ s) = let rest = split c s in if x == c then [] ∷ rest else extend x rest

unfoldable pub server_list : Location → Result (List Text)
unfolding split
server_list (location []) = raise improperly_configured
server_list (locations []) = raise improperly_configured
server_list (location (c ∷ t)) = ok (split b',' (c ∷ t))
server_list (locations (t ∷ ts)) = ok (t ∷ ts)
