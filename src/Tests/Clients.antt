-- ===== src/Tests/Clients.antt =====
-- Tests of client/default.py.
use django_redis.Prelude.{
  ℕ, ◌<◌, ◌≡◌, ◌≢◌, refl, true, false, none, some, List, [], ◌∷◌, Text, codes, arith, pos, negsuc,
}
use django_redis.Python.Sorting.{elem, range}
use django_redis.Python.Decimal.{int, number, signed, is_digit, is_blank, strip, lstrip, rstrip}
use django_redis.Exec.{connection_error, ok, raise, type_error}
use django_redis.Exec.Raises.{OnlyRaises, NotCut}
use django_redis.Value.{null, boolean, bytes, default_timeout, seconds}
use django_redis.Codec.{encode, encode_dump, decode, compress, zlib_compress}
use django_redis.Codec.RoundTrip.{wire, Keeps, decode-encode}
use django_redis.Redis.{State}
use django_redis.Client.{
  untried, get_next_client_index, client_at, get_client_with_index, servers_count,
}
use django_redis.Client.Basic.{key_of, set, get}
use django_redis.Client.Expiry.{ttl, pttl}
use django_redis.Client.Counters.{incr}
use django_redis.Client.Choice.{Random, Due, get_next_client_index_lem}
use django_redis.Client.Wrapped.{set-NotCut}
use django_redis.Client.Retry.{set_retried}
use django_redis.Client.Missing.{ttl-ne-neg, incr_gone}
use django_redis.Client.Stored.{Serving, Stored, set-Stored, get-set}
use django_redis.Tests.{key, World, empty, driver, config, state}

abbrev pub serving : Serving (driver false)
serving = record {
  look = λ w j. w.held j;
  get_reply = λ c k w. refl;
  get_look = λ c k w j. refl;
  set_reply = λ c k e nx xx t w h h'. refl;
  set_look = λ c k e nx xx t w j h h'. refl;
  exists_reply = λ c k w. refl;
  exists_look = λ c k w j. refl;
  delete_reply = λ c k w. refl;
  delete_look = λ c k w j. refl;
}

pub encode-true : encode config.serializer config.compressor (boolean true) ≡ ok (bytes (codes "t"))
unfolding encode encode_dump compress zlib_compress
encode-true = refl

pub true-Keeps : Keeps config.serializer config.compressor (boolean true)
unfolding compress zlib_compress int number signed is_digit strip lstrip rstrip is_blank
true-Keeps = record {
  loaded = λ dump h. let e : codes "t" ≡ dump = ground arith in rw (← e);
  restored = λ dump h.
      let e : codes "t" ≡ dump = ground arith in
      rw (← e) (record { restored = refl; foreign = refl });
  no_integer = λ dump h. let e : codes "t" ≡ dump = ground arith in rw (← e) refl;
}

decode-encode_example :
    decode config.serializer config.compressor (wire (bytes (codes "t"))) ≡ ok (boolean true)
decode-encode_example =
    decode-encode config.serializer config.compressor (boolean true) (bytes (codes "t")) true-Keeps
      encode-true

set-Stored_example :
    Stored
      (driver false)
      serving
      config
      key
      (bytes (codes "t"))
      (some (pos 60))
      none
      0
      true
      false
      state
      (set
        (driver false)
        config
        key
        (boolean true)
        (seconds (some (pos 60)))
        none
        (some 0)
        true
        false
        state)
set-Stored_example =
    set-Stored (driver false) serving config key (boolean true) (bytes (codes "t"))
      (seconds (some (pos 60))) none 0 true false state encode-true refl

get-set_example :
    (get
      (driver false)
      config
      key
      null
      none
      (some 0)
      (set
        (driver false)
        config
        key
        (boolean true)
        (seconds (some (pos 60)))
        none
        (some 0)
        true
        false
        state).1).0
    ≡ ok (boolean true)
get-set_example =
    get-set (driver false) serving config key (boolean true) null (bytes (codes "t"))
      (seconds (some (pos 60))) none 0 true false state true-Keeps encode-true refl refl

set-NotCut_example :
    OnlyRaises NotCut
      (set (driver true) config key (boolean true) default_timeout none none false false)
set-NotCut_example =
    set-NotCut (driver true) config key (boolean true) default_timeout none none false false

pub choice_first :
    (xs : List ℕ) (w : World) → xs ≢ [] → elem ((driver true).choice xs w).0 xs ≡ true
unfolding elem
choice_first [] w h = absurd (h refl)
choice_first (x ∷ xs) w h = ground arith

abbrev pub random : Random (driver true)
random = record {
  choice_from = choice_first;
  randint_low = λ a b w h. omega arith;
  randint_high = λ a b w h. h;
}

get_next_client_index_lem_example :
    (i : ℕ) × (t : State World ℕ Text) × (get_next_client_index
        (driver true)
        config
        true
        (0 ∷ [])
        state
      ≡ (ok i, t))
    × (i < servers_count (driver true) config)
    × Due (driver true) config random true (0 ∷ []) i
get_next_client_index_lem_example =
    get_next_client_index_lem (driver true) config random true (0 ∷ []) state (omega arith)
      (omega arith, unfold elem in refl, tt)

first_client : get_client_with_index (driver true) config true [] state ≡ (ok (0, 0), state)
unfolding get_client_with_index get_next_client_index client_at
first_client = refl

second_client : get_client_with_index (driver true) config true (0 ∷ []) state ≡ (ok (1, 1), state)
unfolding get_client_with_index get_next_client_index client_at untried range elem
second_client = refl

set_retried_example :
    set
      (driver true)
      config
      key
      (boolean true)
      (seconds (some (pos 60)))
      none
      none
      false
      false
      state
    ≡ (
      ok true,
      record state {
        world =
            ((driver true).set 1
              (key_of (driver true) config key none)
              (bytes (codes "t"))
              false
              (some (pos 60000000))
              false
              empty).1;
      },
    )
set_retried_example =
    set_retried (driver true) config key (boolean true) 59 none false false (bytes (codes "t"))
      state state state 0 1 0 1 connection_error true empty _ refl (omega arith) encode-true
      first_client refl second_client refl

incr_gone_example :
    (incr (driver false) config key (pos 1) none (some 0) false state).0 ≡ raise type_error
incr_gone_example =
    incr_gone (driver false) config key (pos 1) none 0 state empty empty empty false refl refl refl

ttl-ne-neg_example :
    ¬ ((ttl (driver false) config key none (some 0) state).0 ≡ ok (some (negsuc 1)))
    × ¬ ((pttl (driver false) config key none (some 0) state).0 ≡ ok (some (negsuc 1)))
ttl-ne-neg_example = ttl-ne-neg (driver false) config key none 0 state 1
