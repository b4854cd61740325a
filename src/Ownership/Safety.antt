-- ===== src/Ownership/Safety.antt =====
-- What a controller can do to the keys of another: internal/agentcore/remoteaccess/webrtc_input_ownership.go.
use labtether_linux.Base.{ℕ, ◌≡◌, true, false, ◌||◌, Bool, arith}
use labtether_linux.Base.Text.{Text, is_empty}
use labtether_linux.Input.{InputEvent, is_up, has, held_input_key}
use labtether_linux.Ownership.{Held, held_by_other}
use labtether_linux.Ownership.Keys.{held_any}
use labtether_linux.Ownership.System.{Todo, releasing, injecting, Desk, Reach}
use labtether_linux.Ownership.Inv.Steps.{Reach-Inv, now}

module _ (wayland : Bool) (s : Desk) (r : Reach wayland s) (k : Text) where
  -- In every order of the controllers' steps, while a batch of owed releases is given to the machine, no
  -- controller that is there holds a key of the batch.
  pub release_held_by_none :
      (batch : Held) (v : ℕ) (todo : Todo)
      → s.phase ≡ releasing batch v todo
      → has k batch ≡ true
      → held_any k s.target.owners ≡ false
  release_held_by_none batch v todo p h =
      ground (arith, h, (now wayland s (releasing batch v todo) (Reach-Inv wayland s r) p).0 k)

  -- In every order of the controllers' steps, an up event of a controller that reaches the machine is of a
  -- key that no other controller holds.
  pub lift_held_by_no_other :
      (o : ℕ) (logical : Text) (e : InputEvent) (v : ℕ)
      → s.phase ≡ injecting o logical e v
      → is_up e ≡ true
      → held_input_key wayland e ≡ k
      → is_empty k ≡ false
      → held_by_other k o s.target.owners ≡ false
  lift_held_by_no_other o logical e v p up same full = ground (
    arith,
    up,
    same,
    full,
    (now wayland s (injecting o logical e v) (Reach-Inv wayland s r) p).lifts,
  )

  -- In every order of the controllers' steps, a key that may be down on the machine is held by a controller
  -- that is there, or its release is owed.
  pub down_key_held_or_owed :
      is_empty k ≡ false
      → s.down k ≡ true
      → (has k s.target.pending || held_any k s.target.owners) ≡ true
  down_key_held_or_owed full d = ground (arith, full, d, (Reach-Inv wayland s r).sound.kept k)
