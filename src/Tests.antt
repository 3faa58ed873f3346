-- ===== src/Tests.antt =====
-- A small world for the tests: a server that keeps its keys, a configuration of two servers, and a
-- ring of two names.
pub mod Rings
pub mod Keys
pub mod Clients
pub mod Shards
pub mod Herds
pub mod Caches
pub mod Runs
pub mod Sentinels
pub mod Lists
pub mod Sets
pub mod SortedSets
use django_redis.Prelude.{
  map, ℕ, zero, suc, ◌+◌, ◌*◌, Bool, true, false, ◌&&◌, Option, none, some, List, [], ◌∷◌, ◌++◌,
  Text, codes, text_eq, ◌==◌, if◌then◌else◌, ℤ, pos, Dict, insert, ltb,
}
use django_redis.Exec.{connection_error, response_error}
use django_redis.Value.{Value, null, boolean, Encoded, bytes}
use django_redis.Keys.{Key, raw, Backend, version_text}
use django_redis.Codec.{Library, Inflated, inflated, bad_data, Compressor, zlib, Serializer}
use django_redis.Codec.RoundTrip.{wire}
use django_redis.Redis.{Driver, State, Setting, unset, text, Reply, reply, fails}
use django_redis.Pool.{Options}
use django_redis.Client.{Config}
use django_redis.Client.Stored.{allowed, is_set, b2n}

pub record World : Type 0 where
  pub held : Text → Option Text
  pub lists : Text → List Text
  pub sets : Text → Text → Bool
  pub now : ℕ

abbrev pub empty : World
empty = record { held = λ j. none; lists = λ j. []; sets = λ j x. false; now = 0 }

abbrev pub put : Text → Option Text → World → World
put key v w = record w { held = λ j. if text_eq key j then v else w.held j }

abbrev store : Text → Encoded → Bool → World → World
store key e b w = record w { held = λ j. if b && text_eq key j then some (wire e) else w.held j }

abbrev drop_all : List Text → World → Reply ℕ × World
drop_all [] w = (reply 0, w)
drop_all (key ∷ []) w = (reply (b2n (is_set (w.held key))), put key none w)
drop_all (key ∷ keys) w = drop_all keys (put key none w)

-- Clients are numbers, pools the texts of their URLs. On a broken driver the client 0 takes no SET, no
-- EXPIRE, and no script.
abbrev pub driver : Bool → Driver World ℕ Text
driver broken = record {
  from_url = λ params w. (some (codes "pool"), w);
  pool_password = λ p w. none;
  set_pool_password = λ p v w. w;
  reset_pool = λ p w. w;
  new_client = λ p w. (2, w);
  disconnect = λ c w. w;
  set = λ c key e nx t xx w.
      if broken && c == 0
      then (fails connection_error, w)
      else (reply (allowed nx xx (w.held key)), store key e (allowed nx xx (w.held key)) w);
  get = λ c key w. (reply (w.held key), w);
  mget = λ c keys w. (reply (map w.held keys), w);
  delete = λ c keys w. drop_all keys w;
  exists = λ c key w. (reply (b2n (is_set (w.held key))), w);
  ttl = λ c key w. (reply (pos 10), w);
  pttl = λ c key w. (reply (pos 10000), w);
  persist = λ c key w. (reply true, w);
  expire = λ c key t w. (reply true, w);
  pexpire = λ c key t w. (if broken && c == 0 then fails connection_error else reply true, w);
  expireat = λ c key t w. (reply true, w);
  pexpireat = λ c key t w. (reply true, w);
  flushdb = λ c w. (reply tt, empty);
  keys = λ c p w. (reply [], w);
  scan_iter = λ c p n w. (reply [], w);
  eval = λ c script key delta w. (fails response_error, w);
  pipeline = λ c w. (c, w);
  execute = λ c w. (reply tt, w);
  hset = λ c h key e w. (reply 1, w);
  hdel = λ c h key w. (reply 0, w);
  hlen = λ c h w. (reply 0, w);
  hkeys = λ c h w. (reply [], w);
  hexists = λ c h key w. (reply false, w);
  choice = λ xs w. (elim xs [ [] ↦ 0 | x ∷ _ ↦ x ], w);
  randint = λ a b w. (a, w);
  time = λ w. (w.now, w);
}

abbrev pub backend : Backend
backend = record {
  key_prefix = codes "app";
  version = pos 1;
  default_timeout = some (pos 300);
  key_func = λ key prefix version. prefix ++ b':' ∷ (version_text version ++ b':' ∷ key);
}

abbrev dumps : Value → Option Text
dumps (boolean true) = some (codes "t")
dumps _ = none

abbrev loads : Text → Option Value
loads [] = none
loads (c ∷ t) = some (boolean true)

abbrev pub serializer : Serializer
serializer = record { dumps = dumps; loads = loads }

abbrev inflate : Text → Inflated
inflate [] = bad_data
inflate (c ∷ t) = if c == 120 then inflated t else bad_data

abbrev pub library : Library
library = record { deflate = λ t. 120 ∷ t; inflate = inflate }

abbrev pub options : Options
options = record {
  password = unset;
  socket_timeout = unset;
  socket_connect_timeout = unset;
  parser_class = unset;
  pool_cls_kwargs = [];
}

abbrev pub config : Config
config = record {
  backend = backend;
  servers = codes "redis://a" ∷ codes "redis://b" ∷ [];
  replica_read_only = false;
  serializer = serializer;
  compressor = zlib library;
  compressor_path = codes "django_redis.compressors.zlib.ZlibCompressor";
  reverse_key = λ t. none;
  close_connection = false;
  options = options;
  import_string = λ s. s;
  object_plus = λ n i. none;
  object_before = λ n now. none;
  object_age = λ n now r window. none;
}

abbrev pub state : State World ℕ Text
state = record { clients = some 0 ∷ some 1 ∷ []; pools = []; world = empty }

-- A digest for the rings: distinct on the points below.
abbrev pub digest : Text → ℕ
digest [] = 7
digest (c ∷ t) = c + 3 * digest t

abbrev pub names : List Text
names = codes "a" ∷ codes "b" ∷ []

abbrev pub key : Key
key = raw (codes "k")

abbrev pub at : ℕ → World
at n = record empty { now = n }
