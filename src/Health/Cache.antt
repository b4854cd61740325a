-- ===== src/Health/Cache.antt =====
-- The cache of health: internal/agentcore/webservice/collector_health_cache.go. Times are nanoseconds; a
-- difference that would be negative is none, which is within every limit, as in the source.
use labtether_linux.Base.{
  ℕ, zero, suc, ◌-◌, ◌*◌, Bool, true, false, ◌&&◌, ◌||◌, Option, none, some, List, [], ◌∷◌,
  if◌then◌else◌, ltb, leb, length,
}
use labtether_linux.Base.Int.{ℤ}
use labtether_linux.Base.Text.{Text, codes, text_eq, is_empty, trim_space, to_lower, equal_fold}
use labtether_linux.Health.Service.{
  Service, Probe, health_check_with_fallback, health_cache_key_for_service, health_cache_input_url,
}

-- `healthCacheEntry`
pub record Entry : Type 0 where
  pub input_url : Text
  pub output_url : Text
  pub status : Text
  pub response_ms : ℤ
  pub checked_at : ℕ

abbrev pub HealthCache : Type 0
HealthCache = List (Text × Entry)

abbrev pub max_health_cache_entries : ℕ
max_health_cache_entries = 2048

abbrev pub second : ℕ
second = 1000000000

abbrev pub clamp : ℕ → ℕ → ℕ → ℕ
clamp low high n = if ltb n low then low else if ltb high n then high else n

-- `healthCacheTTL`; the interval of a collector is positive, and less than 97 years.
unfoldable pub health_cache_ttl : ℕ → Text → ℕ
health_cache_ttl interval status =
    if text_eq (to_lower (trim_space status)) (codes "down")
    then clamp (20 * second) (120 * second) interval
    else clamp (45 * second) (600 * second) (interval * 3)

unfoldable pub find_entry : Text → HealthCache → Option Entry
find_entry key [] = none
find_entry key ((k, e) ∷ cache) =
    let rest = find_entry key cache in if text_eq k key then some e else rest

unfoldable pub delete_entry : Text → HealthCache → HealthCache
delete_entry key [] = []
delete_entry key ((k, e) ∷ cache) =
    let rest = delete_entry key cache in if text_eq k key then rest else (k, e) ∷ rest

abbrev pub put_entry : Text → Entry → HealthCache → HealthCache
put_entry key e cache = (key, e) ∷ delete_entry key cache

-- The entry is still good for a service with this input URL.
abbrev pub is_fresh : ℕ → ℕ → Text → Entry → Bool
is_fresh interval now input_url e =
    equal_fold e.input_url input_url
    && leb (now - e.checked_at) (health_cache_ttl interval e.status)

abbrev pub from_cache : Service → Entry → Service
from_cache s e = record s {
  status = e.status;
  response_ms = e.response_ms;
  url = if is_empty (trim_space e.output_url) then s.url else e.output_url;
}

-- What the first pass makes of a service: its health from the cache, or a check to be done, whose entry goes.
abbrev pub Looked : Type 0
Looked = Option Service × HealthCache

abbrev pub look_found : ℕ → ℕ → Service → HealthCache → Option Entry → Looked
look_found interval now s cache none = (none, cache)
look_found interval now s cache (some e) =
    if is_fresh interval now (health_cache_input_url s) e
    then (some (from_cache s e), cache)
    else (none, delete_entry (health_cache_key_for_service s) cache)

unfoldable pub look_up : ℕ → ℕ → Service → HealthCache → Looked
look_up interval now s cache =
    let key = health_cache_key_for_service s in
    if is_empty key then (none, cache) else look_found interval now s cache (find_entry key cache)

-- The first pass.
unfoldable pub look_up_all :
    ℕ → ℕ → List Service → HealthCache → List (Service × Option Service) × HealthCache
look_up_all interval now [] cache = ([], cache)
look_up_all interval now (s ∷ services) cache =
    let r = look_up interval now s cache in
    let rest = look_up_all interval now services r.1 in ((s, r.0) ∷ rest.0, rest.1)

abbrev pub is_hit : Option Service → Bool
is_hit none = false
is_hit (some s) = true

unfoldable pub all_hits : List (Service × Option Service) → Bool
all_hits [] = true
all_hits ((s, hit) ∷ looked) = is_hit hit && all_hits looked

abbrev pub checked : Probe → Service × Option Service → Service
checked probe (s, some cached) = cached
checked probe (s, none) = health_check_with_fallback probe s

-- The second pass; each worker changes a service of its own.
unfoldable pub check_all : Probe → List (Service × Option Service) → List Service
check_all probe [] = []
check_all probe (l ∷ looked) = checked probe l ∷ check_all probe looked

abbrev pub entry_of : ℕ → Service → Service → Entry
entry_of now s result = record {
  input_url = health_cache_input_url s;
  output_url = trim_space result.url;
  status = to_lower (trim_space result.status);
  response_ms = result.response_ms;
  checked_at = now;
}

abbrev pub store_one : Probe → ℕ → Service × Option Service → HealthCache → HealthCache
store_one probe now (s, some cached) cache = cache
store_one probe now (s, none) cache =
    let key = health_cache_key_for_service s in
    if is_empty key
    then cache
    else put_entry key (entry_of now s (health_check_with_fallback probe s)) cache

-- The update of the cache after the checks.
unfoldable pub store_all : Probe → ℕ → List (Service × Option Service) → HealthCache → HealthCache
store_all probe now [] cache = cache
store_all probe now (l ∷ looked) cache = store_all probe now looked (store_one probe now l cache)

unfoldable pub drop_expired : ℕ → ℕ → HealthCache → HealthCache
drop_expired interval now [] = []
drop_expired interval now ((k, e) ∷ cache) =
    let rest = drop_expired interval now cache in
    if ltb (health_cache_ttl interval e.status) (now - e.checked_at) then rest else (k, e) ∷ rest

-- The loop over the entries that looks for the oldest, with the oldest so far.
unfoldable pub oldest : Text → ℕ → HealthCache → Text
oldest key at [] = key
oldest key at ((k, e) ∷ cache) =
    let older = oldest k e.checked_at cache in
    let same = oldest key at cache in if is_empty key || ltb e.checked_at at then older else same

-- The loop that takes the oldest entry out, on fuel.
unfoldable pub evict : ℕ → HealthCache → HealthCache
evict zero cache = cache
evict (suc n) cache =
    let key = oldest [] 0 cache in
    let rest = evict n (delete_entry key cache) in
    if leb (length cache) max_health_cache_entries
    then cache
    else if is_empty key
    then cache
    else rest

-- `pruneHealthCache`; a round takes an entry out, so there are at most as many as entries.
unfoldable pub prune_health_cache : ℕ → ℕ → HealthCache → HealthCache
prune_health_cache interval now cache =
    let live = drop_expired interval now cache in
    if leb (length cache) max_health_cache_entries
    then cache
    else if leb (length live) max_health_cache_entries
    then live
    else evict (length live) live

-- `applyHealthChecksParallel`
unfoldable pub apply_health_checks_parallel :
    Probe → ℕ → List Service → ℕ → HealthCache → List Service × HealthCache
apply_health_checks_parallel probe interval services now cache =
    let looked = look_up_all interval now services cache in
    if all_hits looked.0 then (check_all probe looked.0, looked.1) else (
      check_all probe looked.0,
      prune_health_cache interval now (store_all probe now looked.0 looked.1),
    )
