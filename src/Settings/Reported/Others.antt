-- ===== src/Settings/Reported/Others.antt =====
-- A setting does not change what is reported of others: internal/agentcore/settings_runtime.go.
use labtether_linux.Base.{
  ◌≡◌, refl, sym, ap, ◌∙◌, Bool, true, false, some, List, [], ◌∷◌, ◌++◌, if◌then◌else◌, All,
  Bool-cases, inl, inr,
}
use labtether_linux.Base.Text.{Text, text_eq, text_eq_iff}
use labtether_linux.Settings.Keys.{
  key_docker_discovery_interval_sec, key_docker_endpoint, key_docker_enabled,
  key_services_discovery_lan_scan_max_hosts, key_services_discovery_lan_scan_ports,
  key_services_discovery_lan_scan_cidrs, key_services_discovery_lan_scan_enabled,
  key_services_discovery_port_scan_ports, key_services_discovery_port_scan_include_listening,
  key_services_discovery_port_scan_enabled, key_services_discovery_proxy_npm_enabled,
  key_services_discovery_proxy_caddy_enabled, key_services_discovery_proxy_traefik_enabled,
  key_services_discovery_proxy_enabled, key_services_discovery_docker_enabled, key_capture_fps,
  key_webrtc_wayland_input_backend, key_webrtc_wayland_pipewire_node_id,
  key_webrtc_wayland_experimental_enabled, key_webrtc_turn_pass, key_webrtc_turn_user,
  key_webrtc_turn_url, key_webrtc_stun_url, key_webrtc_enabled, key_files_root_mode,
}
use labtether_linux.Settings.Apply.Config.{RuntimeConfig, Batch}
use labtether_linux.Settings.Apply.Change.{
  Case, set_field, switch, int_of, bool_of, nanoseconds, same_int, same_bool, same_text, same_word,
}
use labtether_linux.Settings.Apply.Cases.{
  interval_and_docker_cases, service_cases, remote_cases, set_value,
}
use labtether_linux.Settings.Apply.File.{Values, put_value}
use labtether_linux.Settings.Apply.Kept.{All-append}
use labtether_linux.Settings.Reported.{
  default_agent_setting_values, config_entries, set_entries, agent_setting_values_from_config,
  reported_agent_settings, find_value, without_key,
}

abbrev others : Text → Batch → Values
others key b = without_key key (reported_agent_settings b.runtime)

abbrev Leaves : Case → Type 0
Leaves c = (v : Text) (b : Batch) → others c.0 (c.1 v b) ≡ others c.0 b

others-set_field :
    {A : Type 0} (same : RuntimeConfig → A → Bool) (read : Text → A)
    (set : A → RuntimeConfig → RuntimeConfig) (key : Text)
    → ((x : A) (b : Batch)
        → others key (record b {
          runtime = record b.runtime { cfg = set x b.runtime.cfg };
          restart_required = true;
        })
          ≡ others key b)
    → (v : Text) (b : Batch) → others key (set_field same read set v b) ≡ others key b
unfolding set_field
others-set_field same read set key h v b = elim (Bool-cases (same b.runtime.cfg (read v))) [
  | inl y ↦ rw y refl
  | inr n ↦ rw n (h (read v) b)
]

interval_and_docker_cases-Leaves : All Leaves interval_and_docker_cases
unfolding interval_and_docker_cases without_key put_value default_agent_setting_values
    config_entries set_entries agent_setting_values_from_config reported_agent_settings text_eq
interval_and_docker_cases-Leaves = (
  (λ v b. refl),
  (
    (λ v b. refl),
    (
      others-set_field (λ c x. same_word c.docker_enabled x) (λ u. u)
          (λ x c. record c { docker_enabled = x }) key_docker_enabled (λ x b. refl),
      (
        others-set_field (λ c x. same_text c.docker_socket x) (λ u. u)
            (λ x c. record c { docker_socket = x }) key_docker_endpoint (λ x b. refl),
        (
          others-set_field (λ c x. same_int c.docker_discovery_interval x)
              (λ u. nanoseconds (int_of u)) (λ x c. record c { docker_discovery_interval = x })
              key_docker_discovery_interval_sec (λ x b. refl),
          tt,
        ),
      ),
    ),
  ),
)

service_cases-Leaves : All Leaves service_cases
unfolding service_cases without_key put_value default_agent_setting_values config_entries
    set_entries agent_setting_values_from_config reported_agent_settings text_eq
service_cases-Leaves = (
  others-set_field (λ c x. same_bool c.services_discovery_docker_enabled x) bool_of
      (λ x c. record c { services_discovery_docker_enabled = x })
      key_services_discovery_docker_enabled (λ x b. refl),
  (
    others-set_field (λ c x. same_bool c.services_discovery_proxy_enabled x) bool_of
        (λ x c. record c { services_discovery_proxy_enabled = x })
        key_services_discovery_proxy_enabled (λ x b. refl),
    (
      others-set_field (λ c x. same_bool c.services_discovery_proxy_traefik_enabled x) bool_of
          (λ x c. record c { services_discovery_proxy_traefik_enabled = x })
          key_services_discovery_proxy_traefik_enabled (λ x b. refl),
      (
        others-set_field (λ c x. same_bool c.services_discovery_proxy_caddy_enabled x) bool_of
            (λ x c. record c { services_discovery_proxy_caddy_enabled = x })
            key_services_discovery_proxy_caddy_enabled (λ x b. refl),
        (
          others-set_field (λ c x. same_bool c.services_discovery_proxy_npm_enabled x) bool_of
              (λ x c. record c { services_discovery_proxy_npm_enabled = x })
              key_services_discovery_proxy_npm_enabled (λ x b. refl),
          (
            others-set_field (λ c x. same_bool c.services_discovery_port_scan_enabled x) bool_of
                (λ x c. record c { services_discovery_port_scan_enabled = x })
                key_services_discovery_port_scan_enabled (λ x b. refl),
            (
              others-set_field (λ c x. same_bool c.services_discovery_port_scan_include_listening x)
                  bool_of (λ x c. record c { services_discovery_port_scan_include_listening = x })
                  key_services_discovery_port_scan_include_listening (λ x b. refl),
              (
                others-set_field (λ c x. same_text c.services_discovery_port_scan_ports x) (λ u. u)
                    (λ x c. record c { services_discovery_port_scan_ports = x })
                    key_services_discovery_port_scan_ports (λ x b. refl),
                (
                  others-set_field (λ c x. same_bool c.services_discovery_lan_scan_enabled x)
                      bool_of (λ x c. record c { services_discovery_lan_scan_enabled = x })
                      key_services_discovery_lan_scan_enabled (λ x b. refl),
                  (
                    others-set_field (λ c x. same_text c.services_discovery_lan_scan_cidrs x)
                        (λ u. u) (λ x c. record c { services_discovery_lan_scan_cidrs = x })
                        key_services_discovery_lan_scan_cidrs (λ x b. refl),
                    (
                      others-set_field (λ c x. same_text c.services_discovery_lan_scan_ports x)
                          (λ u. u) (λ x c. record c { services_discovery_lan_scan_ports = x })
                          key_services_discovery_lan_scan_ports (λ x b. refl),
                      (
                        others-set_field (λ c x. same_int c.services_discovery_lan_scan_max_hosts x)
                            int_of (λ x c. record c { services_discovery_lan_scan_max_hosts = x })
                            key_services_discovery_lan_scan_max_hosts (λ x b. refl),
                        tt,
                      ),
                    ),
                  ),
                ),
              ),
            ),
          ),
        ),
      ),
    ),
  ),
)

remote_cases-Leaves : All Leaves remote_cases
unfolding remote_cases without_key put_value default_agent_setting_values config_entries set_entries
    agent_setting_values_from_config reported_agent_settings text_eq
remote_cases-Leaves = (
  others-set_field (λ c x. same_word c.file_root_mode x) (λ u. u)
      (λ x c. record c { file_root_mode = x }) key_files_root_mode (λ x b. refl),
  (
    others-set_field (λ c x. same_bool c.webrtc_enabled x) bool_of
        (λ x c. record c { webrtc_enabled = x }) key_webrtc_enabled (λ x b. refl),
    (
      others-set_field (λ c x. same_text c.webrtc_stun_url x) (λ u. u)
          (λ x c. record c { webrtc_stun_url = x }) key_webrtc_stun_url (λ x b. refl),
      (
        others-set_field (λ c x. same_text c.webrtc_turn_url x) (λ u. u)
            (λ x c. record c { webrtc_turn_url = x }) key_webrtc_turn_url (λ x b. refl),
        (
          others-set_field (λ c x. same_text c.webrtc_turn_user x) (λ u. u)
              (λ x c. record c { webrtc_turn_user = x }) key_webrtc_turn_user (λ x b. refl),
          (
            others-set_field (λ c x. same_text c.webrtc_turn_pass x) (λ u. u)
                (λ x c. record c { webrtc_turn_pass = x }) key_webrtc_turn_pass (λ x b. refl),
            (
              others-set_field (λ c x. same_bool c.webrtc_wayland_experimental_enabled x) bool_of
                  (λ x c. record c { webrtc_wayland_experimental_enabled = x })
                  key_webrtc_wayland_experimental_enabled (λ x b. refl),
              (
                others-set_field (λ c x. same_text c.webrtc_wayland_pipewire_node_id x) (λ u. u)
                    (λ x c. record c { webrtc_wayland_pipewire_node_id = x })
                    key_webrtc_wayland_pipewire_node_id (λ x b. refl),
                (
                  others-set_field (λ c x. same_word c.webrtc_wayland_input_backend x) (λ u. u)
                      (λ x c. record c { webrtc_wayland_input_backend = x })
                      key_webrtc_wayland_input_backend (λ x b. refl),
                  (
                    others-set_field (λ c x. same_int c.capture_fps x) int_of
                        (λ x c. record c { capture_fps = x }) key_capture_fps (λ x b. refl),
                    ((λ v b. refl), ((λ v b. refl), tt)),
                  ),
                ),
              ),
            ),
          ),
        ),
      ),
    ),
  ),
)

find_value-without_key :
    (k j : Text) (values : Values)
    → text_eq j k ≡ false
    → find_value k (without_key j values) ≡ find_value k values
unfolding find_value without_key
find_value-without_key k j [] h = refl
find_value-without_key k j ((i, v) ∷ values) h = elim (Bool-cases (text_eq i j)) [
  | inl ij ↦
      rw (ij, ap (λ q. text_eq q k) ((text_eq_iff i j).0 ij) ∙ h)
        (find_value-without_key k j values h)
  | inr n ↦
      rw n (ap (λ rest. if text_eq i k then some v else rest) (find_value-without_key k j values h))
]

module _ (k key v : Text) (b : Batch) (other : text_eq key k ≡ false) where
  abbrev SameReport : Batch → Type 0
  SameReport b' =
      find_value k (reported_agent_settings b'.runtime)
      ≡ find_value k (reported_agent_settings b.runtime)

  switch-SameReport : (cases : List Case) → All Leaves cases → SameReport (switch key cases v b)
  unfolding switch
  switch-SameReport [] a = refl
  switch-SameReport ((j, f) ∷ cases) a = elim (Bool-cases (text_eq key j)) [
    | inl hit ↦
        let differs : text_eq j k ≡ false =
          ap (λ q. text_eq q k) (sym ((text_eq_iff key j).0 hit)) ∙ other in
        rw hit (
          sym (find_value-without_key k j (reported_agent_settings (f v b).runtime) differs)
          ∙ ap (find_value k) (a.0 v b)
          ∙ find_value-without_key k j (reported_agent_settings b.runtime) differs)
    | inr miss ↦ rw miss (switch-SameReport cases a.1)
  ]

  -- What is reported under a key depends on no other setting.
  pub set_value-SameReport : SameReport (set_value key v b)
  unfolding set_value
  set_value-SameReport =
      switch-SameReport (interval_and_docker_cases ++ (service_cases ++ remote_cases)) (
        All-append Leaves interval_and_docker_cases (service_cases ++ remote_cases)
          interval_and_docker_cases-Leaves
          (All-append Leaves service_cases remote_cases service_cases-Leaves remote_cases-Leaves))
