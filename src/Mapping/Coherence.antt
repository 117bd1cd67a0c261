-- ===== src/Mapping/Coherence.antt =====
-- The caches against the tables.
use claw_mux.Base.{
  ℕ, ◌+◌, ◌≤◌, ◌≡◌, refl, ◌∙◌, ap, inl, inr, Option, none, some, [], arith, Bool-cases, ltb, not,
  ◌||◌, some-inj, pair_key, pair_eq_iff, Text, Result, ok, err, length, leb, nat_eq,
}
use claw_mux.Base.Dict.{get, put, pop, get-put, get-pop}
use claw_mux.Mapping.Providers.{Failure}
use claw_mux.Mapping.Database.{Database, cache_version}
use claw_mux.Mapping.Cache.{Cache, Entry, cache_get, cache_put, checked, max_cache_entries}
use claw_mux.Mapping.Storage.{read_through, cached_or, fetched}

-- An entry of the current version holds what the tables hold, and none is of a later version.
pub record Fresh {V : Type 0} (version : ℕ) (select : Text × Text → Option V) (cache : Cache V)
    : Type 0 where
  pub not_later : (k : Text × Text) (v x : ℕ) (a : V) → get cache k ≡ some (v, x, a) → v ≤ version
  pub current :
      (k : Text × Text) (v x : ℕ) (a : V)
      → get cache k ≡ some (v, x, a)
      → v ≡ version
      → select k ≡ some a

module _ {V : Type 0} (version : ℕ) (select : Text × Text → Option V) where
  pub empty-Fresh : Fresh version select []
  unfolding get
  empty-Fresh = record { not_later = λ k v x a h. cc; current = λ k v x a h. cc }

  put-Fresh :
      (cache : Cache V) (k : Text × Text) (a : V) (x : ℕ)
      → Fresh version select cache
      → select k ≡ some a
      → Fresh version select (put cache k (version, x, a))
  put-Fresh cache k a x h s = record {
    not_later = λ j v y b g.
        ground (arith, h.not_later j v y b, get-put cache k j (version, x, a), pair_eq_iff k j);
    current = λ j v y b g e.
        ground (arith, h.current j v y b, get-put cache k j (version, x, a), pair_eq_iff k j);
  }

  pub pop-Fresh :
      (cache : Cache V) (k : Text × Text)
      → Fresh version select cache
      → Fresh version select (pop cache k)
  pop-Fresh cache k h = record {
    not_later = λ j v y b g. ground (arith, h.not_later j v y b, get-pop cache k j);
    current = λ j v y b g e. ground (arith, h.current j v y b, get-pop cache k j);
  }

  cache_put-Fresh :
      (cache : Cache V) (k : Text × Text) (a : V) (x : ℕ)
      → Fresh version select cache
      → select k ≡ some a
      → Fresh version select (cache_put cache k version a x)
  unfolding cache_put
  cache_put-Fresh cache k a x h s = elim (Bool-cases (leb max_cache_entries (length cache))) [
    | inl e ↦ rw e (put-Fresh [] k a x empty-Fresh s)
    | inr e ↦ rw e (put-Fresh cache k a x h s)
  ]

  -- What a cached value, where there is one, says of the tables.
  abbrev Agrees : Text × Text → Cache V × Option V → Type 0
  Agrees k r = Fresh version select r.0 × ((a : V) → r.1 ≡ some a → select k ≡ some a)

  cache_get-Agrees :
      (cache : Cache V) (k : Text × Text) (now : ℕ)
      → Fresh version select cache
      → Agrees k (cache_get cache k version now)
  unfolding cache_get
  cache_get-Agrees cache k now h = go (get cache k) refl
    where
      go : (o : Option (Entry V)) → get cache k ≡ o → Agrees k (checked cache k version now o)
      go none e = (h, λ a q. cc)
      go (some (v, x, a)) e = elim (Bool-cases (ltb x now || not (nat_eq v version))) [
        | inl b ↦ rw b (pop-Fresh cache k h, λ c q. cc)
        | inr b ↦ rw b (
          h,
          λ c q. h.current k v x c (e ∙ ap (λ (d : V). some (v, x, d)) (some-inj q)) (ground arith),
        )
      ]

-- The outcome of a read of the tables.
abbrev pub direct : {V : Type 0} → Failure → Option V → Result Failure V
direct failure none = err failure
direct failure (some a) = ok a

-- A read through a cache that agrees with the tables gives what they hold, or the failure if they
-- hold nothing, whatever the cache held, its age and its size; and the cache still agrees.
pub read_through_exact :
    {V : Type 0} (db : Database) (select : Database → Text × Text → Option V) (cache : Cache V)
    (k : Text × Text) (failure : Failure) (ttl now later : ℕ)
    → Fresh (cache_version db) (select db) cache
    → ((read_through db select cache k failure ttl now later).1 ≡ direct failure (select db k))
      × Fresh
          (cache_version db)
          (select db)
          (read_through db select cache k failure ttl now later).0
unfolding read_through
read_through_exact {V} db select cache k failure ttl now later h =
    go (cache_get cache k (cache_version db) now)
      (cache_get-Agrees (cache_version db) (select db) cache k now h)
  where
    store :
        (c : Cache V) (o : Option V)
        → Fresh (cache_version db) (select db) c
        → select db k ≡ o
        → ((fetched c k (cache_version db) (later + ttl) failure o).1 ≡ direct failure o)
          × Fresh
              (cache_version db)
              (select db)
              (fetched c k (cache_version db) (later + ttl) failure o).0
    store c none f e = (refl, f)
    store c (some a) f e =
        (refl, cache_put-Fresh (cache_version db) (select db) c k a (later + ttl) f e)

    go :
        (r : Cache V × Option V)
        → Agrees (cache_version db) (select db) k r
        → ((cached_or (λ c. fetched c k (cache_version db) (later + ttl) failure (select db k)) r).1
            ≡ direct failure (select db k))
          × Fresh
              (cache_version db)
              (select db)
              (cached_or
                (λ c. fetched c k (cache_version db) (later + ttl) failure (select db k))
                r).0
    go (c, none) a = store c (select db k) a.0 refl
    go (c, some v) a = (rw (a.1 v refl), a.0)
