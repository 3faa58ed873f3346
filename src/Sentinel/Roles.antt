-- ===== src/Sentinel/Roles.antt =====
-- client/sentinel.py and pool.py together: the two locations that SentinelClient makes of one, as
-- SentinelConnectionFactory reads them.
use django_redis.Prelude.{
  ℕ, ◌≡◌, refl, sym, subst, inl, inr, Bool-cases, ap, ◌∙◌, Bool, true, false, Option, some, List,
  [], ◌∷◌, Text, codes, Dict, lookup, insert, remove, lookup-insert, text_eq, text_eq_refl,
}
use django_redis.Exec.{ok}
use django_redis.Redis.{Setting, text}
use django_redis.Pool.{url_key}
use django_redis.Pool.Urls.{Parts, Urls}
use django_redis.Pool.Sentinel.{
  is_master_key, service_name_key, sentinel_manager_key, flag, text_or_none, pool_params,
  pool_params_of, put_is_master,
}
use django_redis.Client.Locations.{location, locations}
use django_redis.Sentinel.{init, replace_query}

-- What is left of a query without `keep_blank_values`.
abbrev keep : Text → List Text → List Text
keep [] vs = vs
keep (c ∷ s) vs = (c ∷ s) ∷ vs

unfoldable pub nonblank_values : List Text → List Text
nonblank_values [] = []
nonblank_values (v ∷ vs) = keep v (nonblank_values vs)

abbrev keep_entry : Text → List Text → Dict (List Text) → Dict (List Text)
keep_entry k [] d = d
keep_entry k (v ∷ vs) d = (k, v ∷ vs) ∷ d

unfoldable pub nonblank : Dict (List Text) → Dict (List Text)
unfolding nonblank_values
nonblank [] = []
nonblank ((k, vs) ∷ d) = keep_entry k (nonblank_values vs) (nonblank d)

-- What the documentation of urllib.parse says of a URL `t`: another query in its place is read back as
-- it was written, but for blank values, and leaves the host alone. And `to_bool` of redis-py.
pub record ReadsQueries (u : Urls) (t : Text) (url : Parts) : Type 0 where
  pub parsed : u.urlparse t ≡ some url
  pub reparsed :
      (query : Dict (List Text))
      → u.urlparse (u.urlunparse (record url { query = u.urlencode query }))
        ≡ some (record url { query = u.urlencode query })
  pub requeried :
      (value : Text)
      → u.parse_qs false
          (u.urlencode (insert is_master_key (value ∷ []) (u.parse_qs true url.query)))
        ≡ nonblank (insert is_master_key (value ∷ []) (u.parse_qs true url.query))
  pub same_host : (query : Text) → u.hostname (record url { query = query }) ≡ u.hostname url
  pub one : u.to_bool (codes "1") ≡ some true
  pub zero : u.to_bool (codes "0") ≡ some false

lookup-keep_entry :
    (k j : Text) (ws : List Text) (d : Dict (List Text))
    → text_eq j k ≡ false
    → lookup k (keep_entry j ws d) ≡ lookup k d
unfolding lookup
lookup-keep_entry k j [] d h = refl
lookup-keep_entry k j (w ∷ ws) d h = rw h refl

remove-keep_entry :
    (k j : Text) (ws : List Text) (d : Dict (List Text))
    → text_eq j k ≡ false
    → remove k (keep_entry j ws d) ≡ keep_entry j ws (remove k d)
unfolding remove
remove-keep_entry k j [] d h = refl
remove-keep_entry k j (w ∷ ws) d h = rw h refl

module _ (k : Text) where
  -- A value that is not blank is read back.
  lookup-nonblank :
      (a : ℕ) (c : Text) (d : Dict (List Text))
      → lookup k (nonblank (insert k ((a ∷ c) ∷ []) d)) ≡ some ((a ∷ c) ∷ [])
  unfolding lookup nonblank nonblank_values insert
  lookup-nonblank a c [] = rw (text_eq_refl k) refl
  lookup-nonblank a c ((j, vs) ∷ d) = elim (Bool-cases (text_eq j k)) [
    | inl e ↦ rw (e, e) refl
    | inr e ↦ rw e (lookup-keep_entry k j (nonblank_values vs) _ e ∙ lookup-nonblank a c d)
  ]

  -- What else the query holds does not depend on the value.
  remove-nonblank :
      (a b : ℕ) (c e : Text) (d : Dict (List Text))
      → remove k (nonblank (insert k ((a ∷ c) ∷ []) d))
        ≡ remove k (nonblank (insert k ((b ∷ e) ∷ []) d))
  unfolding remove nonblank nonblank_values insert
  remove-nonblank a b c e [] = rw (text_eq_refl k) refl
  remove-nonblank a b c e ((j, vs) ∷ d) = elim (Bool-cases (text_eq j k)) [
    | inl h ↦ rw (h, h) refl
    | inr h ↦ rw h (
        remove-keep_entry k j (nonblank_values vs) _ h
        ∙ ap (keep_entry j (nonblank_values vs)) (remove-nonblank a b c e d)
        ∙ sym (remove-keep_entry k j (nonblank_values vs) _ h))
  ]

-- The query of the locations, and what the factory makes of one of them.
abbrev role_query : Urls → Parts → Text → Dict (List Text)
role_query u url value = insert is_master_key (value ∷ []) (u.parse_qs true url.query)

abbrev role_location : Urls → Parts → Text → Text
role_location u url value =
    u.urlunparse (record url { query = u.urlencode (role_query u url value) })

-- The pool of a location: its role, the URL that it is made with, the service and the manager.
pub record Pools (u : Urls) (sentinel : Setting) (params : Dict Setting) (place : Text)
    (master : Bool) (stripped : Text) (host : Option Text) : Type 0 where
  pub pool : Dict Setting
  pub made : pool_params u sentinel place params ≡ ok pool
  pub role : lookup is_master_key pool ≡ some (flag (some master))
  pub address : lookup url_key pool ≡ some (text stripped)
  pub service : lookup service_name_key pool ≡ some (text_or_none host)
  pub manager : lookup sentinel_manager_key pool ≡ some sentinel

-- The parameters that the factory sets.
abbrev settings : Setting → Dict Setting → Bool → Text → Option Text → Dict Setting
settings sentinel params master stripped host = insert url_key (text stripped) (
    insert sentinel_manager_key sentinel (
      insert service_name_key (text_or_none host)
        (insert is_master_key (flag (some master)) params)))

settings-Pools :
    (u : Urls) (sentinel : Setting) (params : Dict Setting) (place : Text) (master : Bool)
    (stripped : Text) (host : Option Text)
    → pool_params u sentinel place params ≡ ok (settings sentinel params master stripped host)
    → Pools u sentinel params place master stripped host
unfolding text_eq
settings-Pools u sentinel params place master stripped host e = record {
  pool = settings sentinel params master stripped host;
  made = e;
  role = simp lookup-insert;
  address = simp lookup-insert;
  service = simp lookup-insert;
  manager = simp lookup-insert;
}

module _ (u : Urls) (sentinel : Setting) (t : Text) (url : Parts) (h : ReadsQueries u t url)
    (params : Dict Setting) where
  abbrev stripped_query : Text → Dict (List Text)
  stripped_query value = remove is_master_key (nonblank (role_query u url value))

  abbrev stripped : Text → Text
  stripped value = u.urlunparse (record url { query = u.urlencode (stripped_query value) })

  location-Pools :
      (a : ℕ) (c : Text) (master : Bool)
      → u.to_bool (a ∷ c) ≡ some master
      → Pools u sentinel params
          (role_location u url (a ∷ c))
          master
          (stripped (a ∷ c))
          (u.hostname url)
  unfolding pool_params pool_params_of put_is_master
  location-Pools a c master e = settings-Pools u sentinel params _ master _ _ (
      rw (h.reparsed (role_query u url (a ∷ c)), pool_params)
        (rw
          (
            h.requeried (a ∷ c),
            lookup-nonblank is_master_key a c (u.parse_qs true url.query),
            e,
            h.same_host (u.urlencode (role_query u url (a ∷ c))),
          )
          refl))

  -- Of one location SentinelClient makes two, where the query of the URL is read back as it is written.
  -- The pool of the first has `is_master` True and that of the second False, whatever the query said;
  -- otherwise they have the same URL, service name and manager.
  pub init-Pools :
      (primary : Text) × (replica : Text) × (address : Text) × (init u (location t)
        ≡ ok (locations (primary ∷ replica ∷ [])))
      × Pools u sentinel params primary true address (u.hostname url)
      × Pools u sentinel params replica false address (u.hostname url)
  unfolding init replace_query
  init-Pools = (
    role_location u url (codes "1"),
    role_location u url (codes "0"),
    stripped (codes "1"),
    rw (h.parsed, init) refl,
    location-Pools b'1' [] true h.one,
    subst
        (λ q.
          Pools u sentinel params (role_location u url (codes "0")) false
            (u.urlunparse (record url { query = u.urlencode q })) (u.hostname url))
        (remove-nonblank is_master_key b'0' b'1' [] [] (u.parse_qs true url.query))
        (location-Pools b'0' [] false h.zero),
  )
