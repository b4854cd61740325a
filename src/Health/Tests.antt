-- ===== src/Health/Tests.antt =====
-- Runs of the health checks: internal/agentcore/webservice/collector_health_cache.go.
use labtether_linux.Base.{◌*◌, ◌≡◌, refl, [], ◌∷◌, map, arith}
use labtether_linux.Base.Int.{pos}
use labtether_linux.Base.Text.{Text, codes}
use labtether_linux.Health.Service.{
  Service, Probe, metadata_value, health_check_with_fallback, service_fingerprint_base_url,
  health_cache_key_for_service, health_cache_input_url,
}
use labtether_linux.Health.Cache.{
  HealthCache, second, look_up, look_up_all, find_entry, delete_entry, check_all, all_hits,
  health_cache_ttl, apply_health_checks_parallel,
}
use labtether_linux.Health.Evict.{IsNamed}
use labtether_linux.Health.Bounds.{IsBounded, apply_health_checks_parallel-IsBounded}
use labtether_linux.Health.Fresh.{AreHealthOf, apply_health_checks_parallel-AreHealthOf}

abbrev blog : Service
blog = record {
  id = codes "Blog";
  url = codes "http://blog";
  status = [];
  response_ms = pos 0;
  metadata = [];
}

abbrev shop : Service
shop = record blog { id = codes "shop"; metadata = (codes "raw_url", codes "http://10.0.0.2") ∷ [] }

-- Only the raw URL answers.
abbrev probe : Probe
probe = λ url path. record {
  base_url = [];
  status = pos 200;
  response_ms = pos 7;
  responded = labtether_linux.Base.Text.text_eq url (codes "http://10.0.0.2");
}

abbrev cache : HealthCache
cache =
    (
      codes "id:blog",
      record {
        input_url = codes "HTTP://blog";
        output_url = [];
        status = codes "up";
        response_ms = pos 3;
        checked_at = 5 * second;
      },
    )
    ∷ []

cache-IsBounded : IsBounded cache
unfolding IsNamed
cache-IsBounded = record { named = (refl, tt); bounded = ground arith }

-- The one from the cache, the other by the raw URL.
runs_round :
    map
      (λ s. s.response_ms)
      (apply_health_checks_parallel probe (15 * second) (blog ∷ shop ∷ []) (50 * second) cache).0
    ≡ pos 3 ∷ pos 7 ∷ []
unfolding apply_health_checks_parallel look_up_all look_up find_entry delete_entry check_all
    all_hits health_cache_ttl health_check_with_fallback service_fingerprint_base_url
    health_cache_key_for_service health_cache_input_url metadata_value
    labtether_linux.Base.Text.text_eq labtether_linux.Base.Text.trim_space
    labtether_linux.Base.Text.to_lower labtether_linux.Base.Text.equal_fold
runs_round = refl

apply_health_checks_parallel-IsBounded_example :
    IsBounded
      (apply_health_checks_parallel probe (15 * second) (blog ∷ shop ∷ []) (50 * second) cache).1
apply_health_checks_parallel-IsBounded_example =
    apply_health_checks_parallel-IsBounded probe (15 * second) (blog ∷ shop ∷ []) (50 * second)
      cache cache-IsBounded

apply_health_checks_parallel-AreHealthOf_example :
    AreHealthOf probe
      (50 * second)
      cache
      (blog ∷ shop ∷ [])
      (apply_health_checks_parallel probe (15 * second) (blog ∷ shop ∷ []) (50 * second) cache).0
apply_health_checks_parallel-AreHealthOf_example =
    apply_health_checks_parallel-AreHealthOf probe (15 * second) (blog ∷ shop ∷ []) (50 * second)
      cache
