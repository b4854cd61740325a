-- ===== src/Health/Service.antt =====
-- A discovered service and the check of its health: internal/agentcore/webservice/collector_health_probe.go.
use labtether_linux.Base.{Bool, ◌&&◌, not, List, [], ◌∷◌, ◌++◌, if◌then◌else◌}
use labtether_linux.Base.Int.{ℤ, pos, ltb_ℤ}
use labtether_linux.Base.Text.{Text, codes, text_eq, is_empty, trim_space, to_lower}

-- `DiscoveredWebService`, as far as its health goes; a key that the metadata lacks reads as the empty text.
pub record Service : Type 0 where
  pub id : Text
  pub url : Text
  pub status : Text
  pub response_ms : ℤ
  pub metadata : List (Text × Text)

-- `healthProbeResult`
pub record HealthProbeResult : Type 0 where
  pub base_url : Text
  pub status : ℤ
  pub response_ms : ℤ
  pub responded : Bool

-- What an HTTP request to a URL and a path brings.
abbrev pub Probe : Type 0
Probe = Text → Text → HealthProbeResult

unfoldable pub metadata_value : Text → List (Text × Text) → Text
metadata_value key [] = []
metadata_value key ((k, v) ∷ metadata) =
    let rest = metadata_value key metadata in if text_eq k key then v else rest

abbrev pub value_of : Service → Text → Text
value_of s key = metadata_value key s.metadata

abbrev pub status_up : Text
status_up = codes "up"

abbrev pub status_down : Text
status_down = codes "down"

-- A response that counts as health: below 500.
abbrev pub is_good_status : ℤ → Bool
is_good_status status = ltb_ℤ (pos 0) status && ltb_ℤ status (pos 500)

abbrev pub with_result : Service → HealthProbeResult → Service
with_result s r =
    if r.responded
    then record s {
      url =
          if not (is_empty r.base_url) && not (text_eq r.base_url s.url) then r.base_url else s.url;
      response_ms = r.response_ms;
      status = if is_good_status r.status then status_up else status_down;
    }
    else record s { response_ms = pos 0; status = status_down }

-- `healthCheck`
abbrev pub health_check : Probe → Service → Service
health_check probe s = with_result s (probe s.url (value_of s (codes "health_path")))

abbrev pub with_fallback : Service → HealthProbeResult → Service
with_fallback s r =
    if r.responded && is_good_status r.status
    then record s { status = status_up; response_ms = r.response_ms }
    else s

-- `healthCheckWithFallback`
unfoldable pub health_check_with_fallback : Probe → Service → Service
health_check_with_fallback probe s =
    let checked = health_check probe s in
    if text_eq checked.status status_down && not (is_empty (value_of checked (codes "raw_url")))
    then with_fallback checked
        (probe (value_of checked (codes "raw_url")) (value_of checked (codes "health_path")))
    else checked

abbrev pub or_else : Text → Text → Text
or_else a b = if is_empty a then b else a

-- `serviceFingerprintBaseURL`
unfoldable pub service_fingerprint_base_url : Service → Text
service_fingerprint_base_url s =
    or_else (trim_space (value_of s (codes "backend_url")))
      (or_else (trim_space (value_of s (codes "raw_url"))) (trim_space s.url))

-- `healthCacheKeyForService`
unfoldable pub health_cache_key_for_service : Service → Text
health_cache_key_for_service s =
    let base = trim_space (service_fingerprint_base_url s) in
    if not (is_empty (trim_space s.id))
    then codes "id:" ++ to_lower (trim_space s.id)
    else if not (is_empty base)
    then codes "url:" ++ to_lower base
    else if not (is_empty (trim_space s.url))
    then codes "url:" ++ to_lower (trim_space s.url)
    else []

-- `healthCacheInputURL`
unfoldable pub health_cache_input_url : Service → Text
health_cache_input_url s = or_else (trim_space (service_fingerprint_base_url s)) (trim_space s.url)
