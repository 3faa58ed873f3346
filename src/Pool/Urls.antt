-- ===== src/Pool/Urls.antt =====
-- urllib.parse, and `to_bool` of redis.connection: parameters of the model.
use django_redis.Prelude.{Bool, Option, List, Text, Dict}

-- The six parts of a URL.
pub record Parts : Type 0 where
  pub scheme : Text
  pub netloc : Text
  pub path : Text
  pub params : Text
  pub query : Text
  pub fragment : Text

-- `none` is a ValueError, or for `hostname` and `to_bool` None. `parse_qs` takes
-- `keep_blank_values`; `urlencode` is called with `doseq`.
pub record Urls : Type 0 where
  pub urlparse : Text → Option Parts
  pub urlunparse : Parts → Text
  pub hostname : Parts → Option Text
  pub parse_qs : Bool → Text → Dict (List Text)
  pub urlencode : Dict (List Text) → Text
  pub to_bool : Text → Option Bool
