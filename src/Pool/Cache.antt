-- ===== src/Pool/Cache.antt =====
-- pool.py: a connection pool is made once per URL, and kept.
use django_redis.Prelude.{
  ◌≡◌, inl, inr, sym, ◌∙◌, Option-cases, some, Text, Dict, lookup, lookup-insert, none, text_eq,
  Bool-cases, lookup-insert_self, arith, ap, List, [], ◌∷◌, text_eq_iff,
}
use django_redis.Exec.{Result, ok, raise, next, ◌>>◌, pure}
use django_redis.Redis.{Driver, State, Setting}
use django_redis.Pool.{
  Options, url_of, from_url, give_password, get_connection_pool, create_pool, store_pool,
  get_or_create_connection_pool,
}

module _ {W C P : Type 0} (d : Driver W C P) (import_string : Setting → Setting) (o : Options) where
  lookup-create_pool :
      (params : Dict Setting) (s s' : State W C P) (pool : P)
      → create_pool d import_string o params s ≡ (ok pool, s')
      → lookup (url_of d import_string o params) s'.pools ≡ some pool
  unfolding create_pool store_pool
  lookup-create_pool params s s' pool made =
      go (get_connection_pool d import_string o params s) made
    where
      go :
          (x : Result P × State W C P)
          → next x (λ p. store_pool d import_string o (url_of d import_string o params) p >> pure p)
            ≡ (ok pool, s')
          → lookup (url_of d import_string o params) s'.pools ≡ some pool
      go (ok p, t) h =
          ground (arith, h, lookup-insert_self (url_of d import_string o params) p t.pools)
      go (raise e, t) h = absurd (ground arith)

  get_connection_pool-pools :
      (params : Dict Setting) (s : State W C P)
      → (get_connection_pool d import_string o params s).1.pools ≡ s.pools
  unfolding get_connection_pool from_url give_password
  get_connection_pool-pools params s = ground arith

  -- A pool that is created goes to a URL of its own.
  create_pool-kept :
      (url : Text) (pool : P) (params : Dict Setting) (s : State W C P)
      → lookup url s.pools ≡ some pool
      → lookup (url_of d import_string o params) s.pools ≡ none
      → lookup url (create_pool d import_string o params s).1.pools ≡ some pool
  unfolding create_pool store_pool
  create_pool-kept url pool params s kept missing =
      go (get_connection_pool d import_string o params s) (get_connection_pool-pools params s)
    where
      go :
          (x : Result P × State W C P)
          → x.1.pools ≡ s.pools
          → lookup url
              (next x (λ p.
                store_pool d import_string o (url_of d import_string o params) p >> pure p)).1.pools
            ≡ some pool
      go (raise e, t) same = ap (λ (m : Dict P). lookup url m) same ∙ kept
      go (ok p, t) same =
          let key = url_of d import_string o params in
          let was : lookup url t.pools ≡ some pool =
            ap (λ (m : Dict P). lookup url m) same ∙ kept in
          lookup-insert key url p t.pools ∙ elim (Bool-cases (text_eq key url)) [
            | inl e ↦
                let q : key ≡ url = ground (arith, text_eq_iff key url) in
                let gone : lookup url s.pools ≡ none =
                  ap (λ (u : Text). lookup u s.pools) (sym q) ∙ missing in
                cc
            | inr e ↦ rw e was
          ]

  -- A pool that is kept stays, whatever is requested.
  get_or_create-kept :
      (url : Text) (pool : P) (params : Dict Setting) (s : State W C P)
      → lookup url s.pools ≡ some pool
      → lookup url (get_or_create_connection_pool d import_string o params s).1.pools ≡ some pool
  unfolding get_or_create_connection_pool
  get_or_create-kept url pool params s kept =
      elim (Option-cases (lookup (url_of d import_string o params) s.pools)) [
        | inl missing ↦
            rw (get_or_create_connection_pool, missing)
              (create_pool-kept url pool params s kept missing)
        | inr (p, found) ↦ rw (get_or_create_connection_pool, found) kept
      ]

  -- Requests one after another, each in the world of its time.
  abbrev pub requests : List (Dict Setting × W) → State W C P → State W C P
  requests [] s = s
  requests ((params, w) ∷ rest) s =
      requests rest
        (get_or_create_connection_pool d import_string o params (record s { world = w })).1

  requests-kept :
      (url : Text) (pool : P) (rs : List (Dict Setting × W)) (s : State W C P)
      → lookup url s.pools ≡ some pool
      → lookup url (requests rs s).pools ≡ some pool
  requests-kept url pool [] s kept = kept
  requests-kept url pool ((params, w) ∷ rest) s kept =
      requests-kept url pool rest _
        (get_or_create-kept url pool params (record s { world = w }) kept)

  got-kept :
      (params : Dict Setting) (s s' : State W C P) (pool : P)
      → get_or_create_connection_pool d import_string o params s ≡ (ok pool, s')
      → lookup (url_of d import_string o params) s'.pools ≡ some pool
  unfolding get_or_create_connection_pool
  got-kept params s s' pool got =
      elim (Option-cases (lookup (url_of d import_string o params) s.pools)) [
        | inl missing ↦
            lookup-create_pool params s s' pool
              (sym (rw (get_or_create_connection_pool, missing)) ∙ got)
        | inr (p, found) ↦
            let was : (ok p, s) ≡ (ok pool, s') =
              sym (rw (get_or_create_connection_pool, found)) ∙ got in
            ap (λ (x : Result P × State W C P). lookup (url_of d import_string o params) x.1.pools)
              (sym was)
            ∙ found
            ∙ ground (arith, was)
      ]

  -- Once a pool was got for the URL of some parameters, and after any requests for pools of this or
  -- of other URLs, whether they return or raise, and whatever the world is by then, a request for
  -- that URL returns the same pool and changes nothing, whatever its other parameters.
  pub get_or_create_connection_pool_cached :
      (params params' : Dict Setting) (s s' : State W C P) (pool : P)
      (between : List (Dict Setting × W)) (w : W)
      → get_or_create_connection_pool d import_string o params s ≡ (ok pool, s')
      → url_of d import_string o params' ≡ url_of d import_string o params
      → let now = record (requests between s') { world = w } in
        get_or_create_connection_pool d import_string o params' now ≡ (ok pool, now)
  unfolding get_or_create_connection_pool
  get_or_create_connection_pool_cached params params' s s' pool between w got same =
      let u = url_of d import_string o params in
      let kept = requests-kept u pool between s' (got-kept params s s' pool got) in
      let held : lookup (url_of d import_string o params') (requests between s').pools ≡ some pool =
        ap (λ (t : Text). lookup t (requests between s').pools) same ∙ kept in
      rw (get_or_create_connection_pool, held)
