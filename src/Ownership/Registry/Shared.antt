-- ===== src/Ownership/Registry/Shared.antt =====
-- Who shares a target: internal/agentcore/remoteaccess/webrtc_input_ownership.go.
use labtether_linux.Base.{
  ◌⊎◌, ℕ, ◌*◌, ◌≤◌, ◌≡◌, sym, refl, ap, subst, ◌∙◌, Bool, true, false, Option, none, some, List, [],
  ◌∷◌, leb, ◌==◌, length, All, arith, Bool-cases, inl, inr,
}
use labtether_linux.Base.Text.{Text, text_eq, text_eq_iff}
use labtether_linux.Ownership.{max_web_rtc_sessions}
use labtether_linux.Ownership.Registry.{
  id_of, Registry, find_target, lease_target, add_target, acquire_found, acquire_target, Lease,
  Leases, Step, acquires, turns, releases, Leased, none_yet, then_, web_rtc_input_target_id,
}
use labtether_linux.Ownership.Registry.Kept.{
  count_at, IsListed, IsKept, same_handle, turns-IsKept, lease_target-IsKept,
}
use labtether_linux.Ownership.Registry.Added.{find_target-add_self, add_target-IsKept}
use labtether_linux.Ownership.Registry.Released.{release_target-IsKept}

some_same : {a : Registry × ℕ} (b : Registry × ℕ) → some a ≡ some b → a ≡ b
some_same {a} b e = ap (λ o. elim o [ none ↦ a | some p ↦ p ]) e

acquire_target-IsKept :
    (wayland : Bool) (display : Text) (o : ℕ) (w : Leases) (r : Registry) (h : ℕ)
    → IsKept w.registry w.live
    → acquire_target (web_rtc_input_target_id wayland display) o w.registry ≡ some (r, h)
    → IsKept r (record { wayland = wayland; display = display; target = h } ∷ w.live)
unfolding acquire_target
acquire_target-IsKept wayland display o w r h k e = go (find_target id w.registry.ids) refl e
  where
    id : Text
    id = web_rtc_input_target_id wayland display

    leased : ℕ → List Lease
    leased g = record { wayland = wayland; display = display; target = g } ∷ w.live

    with_room :
        leb (2 * max_web_rtc_sessions) (length w.registry.ids) ≡ false
        → acquire_found id o none w.registry
          ≡ some (lease_target o w.registry.fresh (add_target id w.registry), w.registry.fresh)
    with_room room = rw room refl

    go :
        (f : Option ℕ)
        → find_target id w.registry.ids ≡ f
        → acquire_found id o f w.registry ≡ some (r, h)
        → IsKept r (record { wayland = wayland; display = display; target = h } ∷ w.live)
    go (some g) f e =
        subst (λ p. IsKept p.0 (leased p.1)) (some_same (r, h) e)
          (lease_target-IsKept w.registry w.live
            (record { wayland = wayland; display = display; target = g }) o k f)
    go none f e = elim (Bool-cases (leb (2 * max_web_rtc_sessions) (length w.registry.ids))) [
      | inl full ↦ absurd (ground (arith, e, full))
      | inr room ↦
          subst (λ p. IsKept p.0 (leased p.1)) (some_same (r, h) (sym (with_room room) ∙ e))
            (lease_target-IsKept (add_target id w.registry) w.live
              (record { wayland = wayland; display = display; target = w.registry.fresh }) o
              (add_target-IsKept w.registry w.live id k f (ground (arith, room)))
              (find_target-add_self w.registry w.live id k f))
    ]

after_step : (w w' : Leases) → IsKept w.registry w.live → Step w w' → IsKept w'.registry w'.live
after_step w w' k (acquires wayland display o h r e) =
    acquire_target-IsKept wayland display o w r h k e
after_step w w' k (turns before after l t split same) =
    turns-IsKept w.registry w.live before after l t k split same
after_step w w' k (releases before after l split) =
    release_target-IsKept w.registry before after l (subst (IsKept w.registry) split k)

Leased-IsKept : (w : Leases) → Leased w → IsKept w.registry w.live
unfolding find_target
Leased-IsKept w none_yet = record {
  bounded = omega arith;
  made = λ id h f. absurd (ground (arith, f));
  apart = λ i j h p q. absurd (ground (arith, p));
  listed = tt;
  counted = λ id h f. absurd (ground (arith, f));
  owed = λ h lt d. absurd (omega (arith, lt));
}
Leased-IsKept w (then_ {w = w₀} before step) = after_step w₀ w (Leased-IsKept w₀ before) step

-- The registry serves the readers that are there.
pub record ServesReaders (r : Registry) (live : List Lease) : Type 0 where
  pub bounded : length r.ids ≤ 2 * max_web_rtc_sessions
  pub listed : All (IsListed r) live
  pub shared : All (λ l. All (λ m. text_eq (id_of l) (id_of m) ≡ (l.target == m.target)) live) live
  pub counted : All (λ l. (r.store l.target).leases ≡ count_at l.target live) live
  pub remembered :
      (h : ℕ)
      → (leb r.fresh h ≡ true)
        ⊎ (length (r.store h).pending ≡ 0)
        ⊎ ((id : Text) × (find_target id r.ids ≡ some h))

module _ (r : Registry) (live : List Lease) (k : IsKept r live) where
  All-All :
      (P : Lease → Type 0)
      → ((l : Lease) → IsListed r l → P l)
      → (ls : List Lease) → All (IsListed r) ls
      → All P ls
  All-All P f [] a = tt
  All-All P f (l ∷ ls) a = (f l a.0, All-All P f ls a.1)

  shared_target :
      (l m : Lease)
      → IsListed r l
      → IsListed r m
      → text_eq (id_of l) (id_of m) ≡ (l.target == m.target)
  shared_target l m a b = elim (Bool-cases (text_eq (id_of l) (id_of m))) [
    | inl y ↦
        ground
          (arith, y, a, b, ap (λ t. find_target t r.ids) ((text_eq_iff (id_of l) (id_of m)).0 y))
    | inr n ↦ elim (Bool-cases (l.target == m.target)) [
      | inl y ↦
          let one =
            k.apart (id_of l) (id_of m) m.target (a ∙ ap some (same_handle m.target l.target y))
              b in
          absurd (ground (arith, n, (text_eq_iff (id_of l) (id_of m)).1 one))
      | inr d ↦ n ∙ sym d
    ]
  ]

  remembered_target :
      (h : ℕ)
      → (leb r.fresh h ≡ true)
        ⊎ (length (r.store h).pending ≡ 0)
        ⊎ ((id : Text) × (find_target id r.ids ≡ some h))
  remembered_target h = elim (Bool-cases (leb r.fresh h)) [
    | inl y ↦ inl y
    | inr n ↦ elim (Bool-cases (length (r.store h).pending == 0)) [
      | inl y ↦ inr (inl (ground (arith, y)))
      | inr d ↦ inr (inr (k.owed h (ground (arith, n)) d))
    ]
  ]

  IsKept-ServesReaders : ServesReaders r live
  IsKept-ServesReaders = record {
    bounded = k.bounded;
    listed = k.listed;
    shared =
        All-All _ (λ l a. All-All _ (λ m b. shared_target l m a b) live k.listed) live k.listed;
    counted = All-All _ (λ l a. k.counted (id_of l) l.target a) live k.listed;
    remembered = remembered_target;
  }

-- In every order of the readers' acquisitions, turns and releases there are at most 20 targets; the target of a
-- reader is the one that is registered for its display, so that two readers have one target exactly if their
-- displays have one id; its count of leases is the number of its readers; and a target that was made and is no
-- longer registered owes no release.
pub Leased-ServesReaders : (w : Leases) → Leased w → ServesReaders w.registry w.live
Leased-ServesReaders w reached = IsKept-ServesReaders w.registry w.live (Leased-IsKept w reached)
