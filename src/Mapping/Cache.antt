-- ===== src/Mapping/Cache.antt =====
-- The in-process caches: an entry holds the version of its read, its expiry and its value.
use claw_mux.Base.{
  ℕ, not, ◌||◌, Option, none, some, List, [], ◌∷◌, ltb, leb, nat_eq, if◌then◌else◌, length, Text,
  pair_key,
}
use claw_mux.Base.Dict.{Dict, get, put, pop}

abbrev pub Entry : Type 0 → Type 0
Entry V = ℕ × ℕ × V

abbrev pub Cache : Type 0 → Type 0
Cache V = Dict (Text × Text) (Entry V)

abbrev pub max_cache_entries : ℕ
max_cache_entries = 1000

module _ {V : Type 0} where
  abbrev pub checked : Cache V → Text × Text → ℕ → ℕ → Option (Entry V) → Cache V × Option V
  checked cache key version now none = (cache, none)
  checked cache key version now (some (v, expires, value)) =
      if ltb expires now || not (nat_eq v version)
      then (pop cache key, none)
      else (cache, some value)

  unfoldable pub cache_get : Cache V → Text × Text → ℕ → ℕ → Cache V × Option V
  cache_get cache key version now = checked cache key version now (get cache key)

  unfoldable pub cache_put : Cache V → Text × Text → ℕ → V → ℕ → Cache V
  cache_put cache key version value expires =
      put (if leb max_cache_entries (length cache) then [] else cache) key (version, expires, value)

  -- The keys of the entries of another version.
  unfoldable pub stale_keys : ℕ → Cache V → List (Text × Text)
  stale_keys version [] = []
  stale_keys version ((k, (v, expires, value)) ∷ cache) =
      let rest = stale_keys version cache in if nat_eq v version then rest else k ∷ rest

  unfoldable pub pop_all : List (Text × Text) → Cache V → Cache V
  pop_all [] cache = cache
  pop_all (k ∷ ks) cache = pop_all ks (pop cache k)

  unfoldable pub drop_stale : ℕ → Cache V → Cache V
  unfolding stale_keys pop_all
  drop_stale version cache = pop_all (stale_keys version cache) cache
