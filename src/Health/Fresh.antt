-- ===== src/Health/Fresh.antt =====
-- Which health a service gets: internal/agentcore/webservice/collector_health_cache.go.
use labtether_linux.Base.{
  ℕ, ◌≤◌, ◌-◌, ◌*◌, ◌≡◌, refl, ap, sym, ◌∙◌, true, false, Option, none, some, List, [], ◌∷◌, arith,
  Bool-cases, inl, inr,
}
use labtether_linux.Base.Text.{
  Text, codes, text_eq, text_eq_iff, is_empty, to_lower, trim_space, equal_fold,
}
use labtether_linux.Health.Service.{
  Service, Probe, health_cache_key_for_service, health_cache_input_url, health_check_with_fallback,
}
use labtether_linux.Health.Cache.{
  Entry, HealthCache, second, health_cache_ttl, find_entry, delete_entry, is_fresh, from_cache,
  look_found, look_up, look_up_all, all_hits, checked, check_all, apply_health_checks_parallel,
}

-- A service's health is that of a check, or of an entry of the cache for the same input URL that is no older
-- than ten minutes.
pub data IsHealthOf (probe : Probe) (now : ℕ) (cache : HealthCache) (s result : Service)
    : Type 0 where
  from_check : result ≡ health_check_with_fallback probe s → IsHealthOf probe now cache s result
  from_entry :
      (e : Entry)
      → find_entry (health_cache_key_for_service s) cache ≡ some e
      → equal_fold e.input_url (health_cache_input_url s) ≡ true
      → (now - e.checked_at) ≤ 600 * second
      → result ≡ from_cache s e
      → IsHealthOf probe now cache s result

pub AreHealthOf : Probe → ℕ → HealthCache → List Service → List Service → Type 0
AreHealthOf probe now cache [] [] = Unit
AreHealthOf probe now cache (s ∷ services) (r ∷ results) =
    IsHealthOf probe now cache s r × AreHealthOf probe now cache services results
AreHealthOf probe now cache _ _ = true ≡ false

health_cache_ttl_bound :
    (interval : ℕ) (status : Text) → health_cache_ttl interval status ≤ 600 * second
unfolding health_cache_ttl
health_cache_ttl_bound interval status =
    elim (Bool-cases (text_eq (to_lower (trim_space status)) (codes "down"))) [
      | inl y ↦ rw y (ground arith)
      | inr n ↦ rw n (ground arith)
    ]

no_entry : {o : Option Entry} (e : Entry) → none ≡ some e → o ≡ some e
no_entry e h = cc

find_entry_deleted : (k : Text) (cache : HealthCache) → find_entry k (delete_entry k cache) ≡ none
unfolding find_entry delete_entry
find_entry_deleted k [] = refl
find_entry_deleted k ((i, d) ∷ cache) = elim (Bool-cases (text_eq i k)) [
  | inl y ↦ rw y (find_entry_deleted k cache)
  | inr n ↦ rw (n, n) (find_entry_deleted k cache)
]

-- An entry that a deletion leaves was there.
find_entry-delete_entry :
    (k j : Text) (cache : HealthCache) (e : Entry)
    → find_entry k (delete_entry j cache) ≡ some e
    → find_entry k cache ≡ some e
unfolding find_entry delete_entry
find_entry-delete_entry k j [] e h = h
find_entry-delete_entry k j ((i, d) ∷ cache) e h = elim (Bool-cases (text_eq i j)) [
  | inl ij ↦ elim (Bool-cases (text_eq i k)) [
    | inl ik ↦
        let same : j ≡ k = sym ((text_eq_iff i j).0 ij) ∙ (text_eq_iff i k).0 ik in
        let gone : find_entry k (delete_entry j cache) ≡ none =
          ap (λ q. find_entry k (delete_entry q cache)) same ∙ find_entry_deleted k cache in
        no_entry e (sym gone ∙ simp ij at h)
    | inr n ↦ rw n (find_entry-delete_entry k j cache e (simp ij at h))
  ]
  | inr nij ↦ elim (Bool-cases (text_eq i k)) [
    | inl ik ↦ rw ik (simp (nij, ik) at h)
    | inr n ↦ rw n (find_entry-delete_entry k j cache e (simp (nij, n) at h))
  ]
]

module _ (probe : Probe) (interval now : ℕ) (whole : HealthCache) where
  -- Each entry of the one is in the other.
  abbrev IsPart : HealthCache → Type 0
  IsPart cache = (k : Text) (e : Entry) → find_entry k cache ≡ some e → find_entry k whole ≡ some e

  module _ (s : Service) (cache : HealthCache) (part : IsPart cache) where
    abbrev LooksRight : Option Service × HealthCache → Type 0
    LooksRight r = IsHealthOf probe now whole s (checked probe (s, r.0)) × IsPart r.1

    look_found-right :
        (o : Option Entry)
        → find_entry (health_cache_key_for_service s) cache ≡ o
        → LooksRight (look_found interval now s cache o)
    look_found-right none h = (from_check refl, part)
    look_found-right (some e) h =
        elim (Bool-cases (is_fresh interval now (health_cache_input_url s) e)) [
          | inl fresh ↦ rw fresh (
            from_entry e (part (health_cache_key_for_service s) e h) (ground (arith, fresh))
                (ground (arith, fresh, health_cache_ttl_bound interval e.status)) refl,
            part,
          )
          | inr stale ↦ rw stale (
            from_check refl,
            λ k d q.
                part k d (find_entry-delete_entry k (health_cache_key_for_service s) cache d q),
          )
        ]

    look_up-right : LooksRight (look_up interval now s cache)
    unfolding look_up
    look_up-right = elim (Bool-cases (is_empty (health_cache_key_for_service s))) [
      | inl y ↦ rw y (from_check refl, part)
      | inr n ↦ rw n (look_found-right (find_entry (health_cache_key_for_service s) cache) refl)
    ]

  look_up_all-right :
      (services : List Service) (cache : HealthCache)
      → IsPart cache
      → AreHealthOf probe now whole services
          (check_all probe (look_up_all interval now services cache).0)
  unfolding look_up_all check_all AreHealthOf
  look_up_all-right [] cache part = tt
  look_up_all-right (s ∷ services) cache part =
      let r = look_up-right s cache part in
      (r.0, look_up_all-right services (look_up interval now s cache).1 r.1)

-- After a round of health checks every service has, in its place, the health of a check, or that of an entry of
-- the cache under its key for the same input URL that is no older than ten minutes, whatever the interval of the
-- collector is.
pub apply_health_checks_parallel-AreHealthOf :
    (probe : Probe) (interval : ℕ) (services : List Service) (now : ℕ) (cache : HealthCache)
    → AreHealthOf probe now cache services
        (apply_health_checks_parallel probe interval services now cache).0
unfolding apply_health_checks_parallel
apply_health_checks_parallel-AreHealthOf probe interval services now cache =
    let looked = look_up_all interval now services cache in
    let right = look_up_all-right probe interval now cache services cache (λ k e h. h) in
    elim (Bool-cases (all_hits looked.0)) [
      | inl hits ↦ rw hits right
      | inr misses ↦ rw misses right
    ]
