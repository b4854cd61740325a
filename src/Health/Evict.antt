-- ===== src/Health/Evict.antt =====
-- The loop that takes out the oldest entries: internal/agentcore/webservice/collector_health_cache.go.
use labtether_linux.Base.{
  ℕ, zero, suc, ◌≤◌, ◌<◌, ◌≡◌, Bool, true, false, ◌||◌, [], ◌∷◌, if◌then◌else◌, ltb, leb, length,
  All, arith, Bool-cases, inl, inr,
}
use labtether_linux.Base.Text.{Text, text_eq, text_eq_refl, is_empty}
use labtether_linux.Health.Cache.{
  HealthCache, max_health_cache_entries, delete_entry, oldest, evict,
}

-- Every entry has a key that is not empty.
unfoldable pub IsNamed : HealthCache → Type 0
IsNamed cache = All (λ h. is_empty h.0 ≡ false) cache

abbrev has_key : Text → HealthCache → Bool
has_key k [] = false
has_key k ((j, e) ∷ cache) = text_eq j k || has_key k cache

pub delete_entry-IsNamed :
    (key : Text) (cache : HealthCache) → IsNamed cache → IsNamed (delete_entry key cache)
unfolding delete_entry IsNamed
delete_entry-IsNamed key [] h = tt
delete_entry-IsNamed key ((k, e) ∷ cache) h = elim (Bool-cases (text_eq k key)) [
  | inl y ↦ rw y (delete_entry-IsNamed key cache h.1)
  | inr n ↦ rw n (h.0, delete_entry-IsNamed key cache h.1)
]

pub length-delete_entry :
    (key : Text) (cache : HealthCache) → length (delete_entry key cache) ≤ length cache
unfolding delete_entry
length-delete_entry key [] = ground arith
length-delete_entry key ((k, e) ∷ cache) = ground (arith, length-delete_entry key cache)

-- An entry that is there goes.
length-delete_entry_there :
    (key : Text) (cache : HealthCache)
    → has_key key cache ≡ true
    → length (delete_entry key cache) < length cache
unfolding delete_entry
length-delete_entry_there key [] h = cc
length-delete_entry_there key ((k, e) ∷ cache) h = elim (Bool-cases (text_eq k key)) [
  | inl y ↦ ground (arith, y, length-delete_entry key cache)
  | inr n ↦ ground (arith, n, length-delete_entry_there key cache (ground (arith, n, h)))
]

there_if :
    (c : Bool) (a b key k : Text) (cache : HealthCache)
    → (text_eq k a || has_key a cache) ≡ true
    → (text_eq key b || has_key b cache) ≡ true
    → (text_eq key (if c then a else b)
        || (text_eq k (if c then a else b) || has_key (if c then a else b) cache))
      ≡ true
there_if true a b key k cache p q = ground (arith, p)
there_if false a b key k cache p q = ground (arith, q)

-- The oldest key is the one so far, or one of the cache.
oldest_there :
    (key : Text) (at : ℕ) (cache : HealthCache)
    → (text_eq key (oldest key at cache) || has_key (oldest key at cache) cache) ≡ true
unfolding oldest
oldest_there key at [] = ground (arith, text_eq_refl key)
oldest_there key at ((k, e) ∷ cache) =
    there_if (is_empty key || ltb e.checked_at at) (oldest k e.checked_at cache)
      (oldest key at cache) key k cache (oldest_there k e.checked_at cache)
      (oldest_there key at cache)

oldest-named :
    (key : Text) (at : ℕ) (cache : HealthCache)
    → is_empty key ≡ false
    → IsNamed cache
    → is_empty (oldest key at cache) ≡ false
unfolding oldest IsNamed
oldest-named key at [] h c = h
oldest-named key at ((k, e) ∷ cache) h c = elim (Bool-cases (is_empty key || ltb e.checked_at at)) [
  | inl y ↦ rw y (oldest-named k e.checked_at cache c.0 c.1)
  | inr n ↦ rw n (oldest-named key at cache h c.1)
]

-- In a cache that is not empty the search finds a key of it.
oldest_found :
    (cache : HealthCache)
    → IsNamed cache
    → 0 < length cache
    → (is_empty (oldest [] 0 cache) ≡ false) × (has_key (oldest [] 0 cache) cache ≡ true)
unfolding oldest IsNamed
oldest_found [] c h = ground (arith, h)
oldest_found ((k, e) ∷ cache) c h =
    (oldest-named k e.checked_at cache c.0 c.1, oldest_there k e.checked_at cache)

-- The loop takes entries out until few enough are left.
pub evict_bound :
    (n : ℕ) (cache : HealthCache)
    → IsNamed cache
    → length cache ≤ n
    → (IsNamed (evict n cache)) × (length (evict n cache) ≤ max_health_cache_entries)
unfolding evict
evict_bound zero cache c h = (c, ground (arith, h))
evict_bound (suc n) cache c h = elim (Bool-cases (leb (length cache) max_health_cache_entries)) [
  | inl few ↦ rw few (c, ground (arith, few))
  | inr many ↦
      let f = oldest_found cache c (ground (arith, many)) in
      rw (many, f.0)
        (evict_bound n (delete_entry (oldest [] 0 cache) cache)
          (delete_entry-IsNamed (oldest [] 0 cache) cache c)
          (ground (arith, h, length-delete_entry_there (oldest [] 0 cache) cache f.1)))
]
