-- ===== src/Health/Bounds.antt =====
-- How large the cache grows: internal/agentcore/webservice/collector_health_cache.go.
use labtether_linux.Base.{
  ℕ, ◌≤◌, ◌-◌, Option, none, some, List, [], ◌∷◌, ltb, leb, length, arith, Bool-cases, inl, inr,
}
use labtether_linux.Base.Text.{is_empty}
use labtether_linux.Health.Service.{
  Service, Probe, health_cache_key_for_service, health_cache_input_url,
}
use labtether_linux.Health.Cache.{
  Entry, HealthCache, max_health_cache_entries, health_cache_ttl, find_entry, is_fresh, look_found,
  look_up, look_up_all, all_hits, store_one, store_all, drop_expired, prune_health_cache,
  apply_health_checks_parallel,
}
use labtether_linux.Health.Evict.{IsNamed, delete_entry-IsNamed, length-delete_entry, evict_bound}

drop_expired-IsNamed :
    (interval now : ℕ) (cache : HealthCache)
    → IsNamed cache
    → IsNamed (drop_expired interval now cache)
unfolding drop_expired IsNamed
drop_expired-IsNamed interval now [] c = tt
drop_expired-IsNamed interval now ((k, e) ∷ cache) c =
    elim (Bool-cases (ltb (health_cache_ttl interval e.status) (now - e.checked_at))) [
      | inl old ↦ rw old (drop_expired-IsNamed interval now cache c.1)
      | inr live ↦ rw live (c.0, drop_expired-IsNamed interval now cache c.1)
    ]

-- A cache as a collector has it between its rounds.
pub record IsBounded (cache : HealthCache) : Type 0 where
  pub named : IsNamed cache
  pub bounded : length cache ≤ max_health_cache_entries

prune_health_cache-IsBounded :
    (interval now : ℕ) (cache : HealthCache)
    → IsNamed cache
    → IsBounded (prune_health_cache interval now cache)
unfolding prune_health_cache
prune_health_cache-IsBounded interval now cache c =
    elim (Bool-cases (leb (length cache) max_health_cache_entries)) [
      | inl few ↦ rw few (record { named = c; bounded = ground (arith, few) })
      | inr many ↦
          elim (Bool-cases
            (leb (length (drop_expired interval now cache)) max_health_cache_entries)) [
              | inl few ↦
                  rw (many, few)
                    (record {
                      named = drop_expired-IsNamed interval now cache c;
                      bounded = ground (arith, few);
                    })
              | inr still ↦
                  let live = drop_expired interval now cache in
                  let r =
                    evict_bound (length live) live (drop_expired-IsNamed interval now cache c)
                      (omega arith) in
                  rw (many, still) (record { named = r.0; bounded = r.1 })
            ]
    ]

look_up-IsBounded :
    (interval now : ℕ) (s : Service) (cache : HealthCache)
    → IsBounded cache
    → IsBounded (look_up interval now s cache).1
unfolding look_up
look_up-IsBounded interval now s cache b =
    elim (Bool-cases (is_empty (health_cache_key_for_service s))) [
      | inl y ↦ rw y b
      | inr n ↦ rw n (go (find_entry (health_cache_key_for_service s) cache))
    ]
  where
    go : (o : Option Entry) → IsBounded (look_found interval now s cache o).1
    go none = b
    go (some e) = elim (Bool-cases (is_fresh interval now (health_cache_input_url s) e)) [
      | inl fresh ↦ rw fresh b
      | inr stale ↦ rw stale (record {
        named = delete_entry-IsNamed (health_cache_key_for_service s) cache b.named;
        bounded =
            ground (arith, b.bounded, length-delete_entry (health_cache_key_for_service s) cache);
      })
    ]

look_up_all-IsBounded :
    (interval now : ℕ) (services : List Service) (cache : HealthCache)
    → IsBounded cache
    → IsBounded (look_up_all interval now services cache).1
unfolding look_up_all
look_up_all-IsBounded interval now [] cache b = b
look_up_all-IsBounded interval now (s ∷ services) cache b =
    look_up_all-IsBounded interval now services (look_up interval now s cache).1
      (look_up-IsBounded interval now s cache b)

store_one-IsNamed :
    (probe : Probe) (now : ℕ) (l : Service × Option Service) (cache : HealthCache)
    → IsNamed cache
    → IsNamed (store_one probe now l cache)
unfolding IsNamed
store_one-IsNamed probe now (s, some cached) cache c = c
store_one-IsNamed probe now (s, none) cache c =
    elim (Bool-cases (is_empty (health_cache_key_for_service s))) [
      | inl y ↦ rw y c
      | inr n ↦ rw n (n, delete_entry-IsNamed (health_cache_key_for_service s) cache c)
    ]

store_all-IsNamed :
    (probe : Probe) (now : ℕ) (looked : List (Service × Option Service)) (cache : HealthCache)
    → IsNamed cache
    → IsNamed (store_all probe now looked cache)
unfolding store_all
store_all-IsNamed probe now [] cache c = c
store_all-IsNamed probe now (l ∷ looked) cache c =
    store_all-IsNamed probe now looked (store_one probe now l cache)
      (store_one-IsNamed probe now l cache c)

-- A round of health checks keeps the cache within its limit, whatever the services and the checks are, and no
-- entry has an empty key.
pub apply_health_checks_parallel-IsBounded :
    (probe : Probe) (interval : ℕ) (services : List Service) (now : ℕ) (cache : HealthCache)
    → IsBounded cache
    → IsBounded (apply_health_checks_parallel probe interval services now cache).1
unfolding apply_health_checks_parallel
apply_health_checks_parallel-IsBounded probe interval services now cache b =
    let looked = look_up_all interval now services cache in
    let kept = look_up_all-IsBounded interval now services cache b in
    elim (Bool-cases (all_hits looked.0)) [
      | inl hits ↦ rw hits kept
      | inr misses ↦ rw misses (
          prune_health_cache-IsBounded interval now (store_all probe now looked.0 looked.1)
            (store_all-IsNamed probe now looked.0 looked.1 kept.named))
    ]
