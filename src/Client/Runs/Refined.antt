-- ===== src/Client/Runs/Refined.antt =====
-- client/default.py: a run of commands against a server.
use django_redis.Prelude.{◌≡◌, refl, List, [], ◌∷◌, All}
use django_redis.Exec.{Result, ok, M, next, ◌>>=◌, pure}
use django_redis.Redis.{Driver, State}
use django_redis.Client.{Config}
use django_redis.Client.Stored.{Serving}
use django_redis.Client.Runs.{
  Operation, Answer, Contents, perform, perform_all, meaning, meaning_all,
}
use django_redis.Client.Runs.Steps.{Agrees, IsStorable, next-ok, perform-Refines}

module _ {W C P : Type 0} (d : Driver W C P) (r : Serving d) (k : Config) where
  both :
      (first : Result Answer × State W C P) (others : M (State W C P) (List Answer)) (b : Answer)
      (meant : List Answer × Contents)
      → first.0 ≡ ok b
      → ((others first.1).0 ≡ ok meant.0) × Agrees d r k (others first.1).1.world meant.1
      → ((next first (λ x. do rest ← others; pure (x ∷ rest))).0 ≡ ok (b ∷ meant.0))
        × Agrees d r k (next first (λ x. do rest ← others; pure (x ∷ rest))).1.world meant.1
  both first others b meant h rest =
      rw (next-ok first (λ x. do rest ← others; pure (x ∷ rest)) b h)
        (rw (next-ok (others first.1) (λ rest. pure (b ∷ rest)) meant.0 rest.0) (refl, rest.1))

  -- On a client that is given, and with a server that answers, any run of set, add, get, delete and
  -- has_key, with values that are encoded and decoded to themselves, raises nothing: the answers, and the
  -- keys of the server afterwards, are those of a map from the texts of keys to values, if the server
  -- agreed with the map before. In the map a timeout of 0 or below removes the key, or in add does
  -- nothing; no key of it runs out.
  pub perform_all_refines :
      (ops : List Operation) (c : C) (s : State W C P) (m : Contents)
      → Agrees d r k s.world m
      → All (IsStorable d r k) ops
      → ((perform_all d k c ops s).0 ≡ ok (meaning_all d k ops m).0)
        × Agrees d r k (perform_all d k c ops s).1.world (meaning_all d k ops m).1
  unfolding perform_all meaning_all
  perform_all_refines [] c s m a h = (refl, a)
  perform_all_refines (op ∷ ops) c s m a h =
      let one = perform-Refines d r k c s m a op h.0 in
      let rest =
        perform_all_refines ops c (perform d k c op s).1 (meaning d k op m).1 one.agrees h.1 in
      both (perform d k c op s) (perform_all d k c ops) (meaning d k op m).0
        (meaning_all d k ops (meaning d k op m).1) one.answered rest
