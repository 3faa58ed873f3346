-- ===== src/Keys/Pattern.antt =====
-- client/default.py: patterns for KEYS and SCAN. The server matches them; what its documentation
-- says of glob patterns is the record `Glob`.
use django_redis.Prelude.{
  ℕ, ◌≡◌, sym, ◌≢◌, ◌↔◌, refl, ◌∙◌, inl, inr, Bool, true, false, Option, [], ◌∷◌, ◌++◌, arith, Text,
  ℤ, Bool-cases,
}
use django_redis.Python.Sorting.{elem}
use django_redis.Python.Decimal.{str}
use django_redis.Python.Decimal.Laws.{elem-str}
use django_redis.Keys.{
  raw, key_text, number, text, Backend, is_special, glob_escape, or_else, make_key, make_pattern,
}
use django_redis.Keys.Reverse.{IsDefaultKeyFunc}

abbrev pub backslash : ℕ
backslash = 92

-- The characters that the documentation of KEYS names, but for the backslash.
abbrev pub magic : Text
magic = b'*' ∷ b'?' ∷ b'[' ∷ []

is_special-magic : (c : ℕ) → is_special c ≡ elem c magic
unfolding is_special elem
is_special-magic c = ground arith

-- Redis glob patterns: a character that is not magic stands for itself, and so does one of `*?[`
-- in brackets. A backslash is special too.
pub record Glob : Type 0 where
  pub matches : Text → Text → Bool
  pub literal :
      (c : ℕ) (p t : Text)
      → elem c magic ≡ false
      → c ≢ backslash
      → (matches (c ∷ p) t ≡ true) ↔ ((r : Text) × (t ≡ c ∷ r) × (matches p r ≡ true))
  pub bracket :
      (c : ℕ) (p t : Text)
      → elem c magic ≡ true
      → (matches (b'[' ∷ c ∷ b']' ∷ p) t ≡ true) ↔ ((r : Text) × (t ≡ c ∷ r) × (matches p r ≡ true))

module _ (g : Glob) where
  open g use {matches}

  -- One more character in front of what is matched.
  lead :
      (c : ℕ) (s p t : Text) (rest : Text) {P : Type 0}
      → P ↔ ((r : Text) × (t ≡ c ∷ r) × (matches rest r ≡ true))
      → ((u : Text) → (matches rest u ≡ true) ↔ ((r : Text) × (u ≡ s ++ r) × (matches p r ≡ true)))
      → P ↔ ((r : Text) × (t ≡ c ∷ (s ++ r)) × (matches p r ≡ true))
  lead c s p t rest head tail = (
    λ m. let (r, e, m') = head.0 m in let (r', e', m'') = (tail r).0 m' in (r', rw (e, e'), m''),
    λ f. head.1 (s ++ f.0, f.1, (tail (s ++ f.0)).1 (f.0, refl, f.2)),
  )

  -- A text without a backslash, escaped and followed by `p`, matches the text followed by what `p`
  -- matches.
  pub glob_escape_matches :
      (s p t : Text)
      → elem backslash s ≡ false
      → (matches (glob_escape s ++ p) t ≡ true) ↔ ((r : Text) × (t ≡ s ++ r) × (matches p r ≡ true))
  unfolding glob_escape elem
  glob_escape_matches [] p t h = (λ m. (t, refl, m), λ f. rw f.1 f.2)
  glob_escape_matches (c ∷ s) p t h = elim (Bool-cases (is_special c)) [
    | inl special ↦ rw special (
        lead c s p t (glob_escape s ++ p) (g.bracket c _ t (sym (is_special-magic c) ∙ special))
          (λ u. glob_escape_matches s p u (ground arith)))
    | inr plain ↦ rw plain (
        lead c s p t (glob_escape s ++ p)
          (g.literal c _ t (sym (is_special-magic c) ∙ plain) (ground arith))
          (λ u. glob_escape_matches s p u (ground arith)))
  ]

  -- The pattern that `make_pattern` builds from a user's pattern matches the keys that `make_key`
  -- builds with the same version and prefix from the texts that the user's pattern matches, and
  -- matches no other text: not the keys of another version or prefix.
  pub matches-make_pattern :
      (b : Backend) (pattern t : Text) (v : Option ℤ) (p : Option Text)
      → IsDefaultKeyFunc b
      → elem backslash (or_else p b.key_prefix) ≡ false
      → (matches (key_text (make_pattern b (raw pattern) v p)) t ≡ true)
        ↔ ((key : Text) × (t ≡ key_text (make_key b (raw key) v p)) × (matches pattern key ≡ true))
  unfolding make_pattern make_key
  matches-make_pattern b pattern t v p d h =
      let version = str (or_else v b.version) in
      let prefix = or_else p b.key_prefix in
      let e = elem-str backslash (or_else v b.version) (omega arith) (inr (omega arith)) in
      let tail = glob_escape version ++ b':' ∷ pattern in
      let outer = glob_escape_matches prefix (b':' ∷ tail) t h in
      let colon = λ (q u : Text). g.literal b':' q u (unfold elem in refl) (omega arith) in
      let inner = λ (u : Text). glob_escape_matches version (b':' ∷ pattern) u e in
      rw (d pattern (glob_escape prefix) (text (glob_escape version))) (
        λ m.
            let (r₁, e₁, m₁) = outer.0 m in
            let (r₂, e₂, m₂) = (colon tail r₁).0 m₁ in
            let (r₃, e₃, m₃) = (inner r₂).0 m₂ in
            let (key, e₄, m₄) = (colon pattern r₃).0 m₃ in
            (key, rw (d key prefix (number (or_else v b.version)), e₁, e₂, e₃, e₄), m₄),
        λ f.
            let key = f.0 in
            let r₁ : Text = b':' ∷ (version ++ b':' ∷ key) in
            outer.1 (
              r₁,
              f.1 ∙ d key prefix (number (or_else v b.version)),
              (colon tail r₁).1 (
                version ++ b':' ∷ key,
                refl,
                (inner (version ++ b':' ∷ key)).1
                    (b':' ∷ key, refl, (colon pattern (b':' ∷ key)).1 (key, refl, f.2)),
              ),
            ),
      )
