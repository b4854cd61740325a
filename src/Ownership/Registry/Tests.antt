-- ===== src/Ownership/Registry/Tests.antt =====
-- Two readers of one keyboard: internal/agentcore/remoteaccess/webrtc_input_ownership.go.
use labtether_linux.Base.{◌≡◌, refl, false, [], ◌∷◌}
use labtether_linux.Base.Text.{codes}
use labtether_linux.Ownership.Registry.{
  web_rtc_input_target_id, is_display_number, before_dot, trim_zeros, find_target, lease_target,
  add_target, acquire_target, Leases, acquires, no_leases, Leased, none_yet, then_,
}
use labtether_linux.Ownership.Registry.Shared.{ServesReaders, Leased-ServesReaders}

runs_screen : web_rtc_input_target_id false (codes " :00.1 ") ≡ codes "x11:0"
unfolding web_rtc_input_target_id is_display_number before_dot trim_zeros
    labtether_linux.Base.Text.trim_space
runs_screen = refl

runs_remote : web_rtc_input_target_id false (codes "host:1") ≡ codes "x11:host:1"
unfolding web_rtc_input_target_id is_display_number before_dot trim_zeros
    labtether_linux.Base.Text.trim_space
runs_remote = refl

abbrev one : Leases
one = record {
  registry = lease_target 0 0 (add_target (codes "x11:0") no_leases.registry);
  live = record { wayland = false; display = []; target = 0 } ∷ [];
}

-- The second reader has another screen of the same display.
abbrev two : Leases
two = record {
  registry = lease_target 1 0 one.registry;
  live = record { wayland = false; display = codes ":0.1"; target = 0 } ∷ one.live;
}

two-Leased : Leased two
unfolding web_rtc_input_target_id is_display_number before_dot trim_zeros
    labtether_linux.Base.Text.trim_space acquire_target find_target
    labtether_linux.Base.Text.text_eq
two-Leased =
    then_ (then_ none_yet (acquires false [] 0 0 one.registry refl))
      (acquires false (codes ":0.1") 1 0 two.registry refl)

Leased-ServesReaders_example : ServesReaders two.registry two.live
Leased-ServesReaders_example = Leased-ServesReaders two two-Leased
