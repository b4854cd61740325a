-- ===== src/Ownership/Registry/Added.antt =====
-- A new target of the registry: internal/agentcore/remoteaccess/webrtc_input_ownership.go.
use labtether_linux.Base.{
  ◌⊎◌, ℕ, ◌+◌, ◌*◌, ◌<◌, ◌≡◌, refl, sym, ap, subst, ◌∙◌, none, some, List, [], ◌∷◌, ◌==◌, length,
  All, arith, Bool-cases, inl, inr,
}
use labtether_linux.Base.Text.{Text, text_eq, text_eq_iff, text_eq_refl}
use labtether_linux.Ownership.{max_web_rtc_sessions}
use labtether_linux.Ownership.Registry.{Registry, find_target, new_target, add_target, Lease, id_of}
use labtether_linux.Ownership.Registry.Kept.{
  count_at, IsListed, IsKept, put_target_hit, put_target_miss, HasDebt,
}

-- No reader is at a target that is not made yet.
count_at_fresh :
    (r : Registry) (live : List Lease)
    → ((id : Text) (h : ℕ) → find_target id r.ids ≡ some h → h < r.fresh)
    → All (IsListed r) live
    → count_at r.fresh live ≡ 0
count_at_fresh r [] made a = refl
count_at_fresh r (l ∷ live) made a =
    ground (arith, made (id_of l) l.target a.0, count_at_fresh r live made a.1)

All-IsListed :
    (r r' : Registry) (live : List Lease)
    → ((l : Lease) → IsListed r l → IsListed r' l)
    → All (IsListed r) live
    → All (IsListed r') live
All-IsListed r r' [] f a = tt
All-IsListed r r' (l ∷ live) f a = (f l a.0, All-IsListed r r' live f a.1)

-- A new target, of an id that is not there.
module _ (r : Registry) (live : List Lease) (id : Text) (k : IsKept r live)
    (absent : find_target id r.ids ≡ none) where
  pub find_target-add_self : find_target id (add_target id r).ids ≡ some r.fresh
  unfolding find_target
  find_target-add_self = rw (text_eq_refl id) refl

  find_target-add_old :
      (j : Text) (h : ℕ)
      → find_target j r.ids ≡ some h
      → find_target j (add_target id r).ids ≡ some h
  unfolding find_target
  find_target-add_old j h f = elim (Bool-cases (text_eq id j)) [
    | inl y ↦
        absurd (ground (arith, f, absent, ap (λ t. find_target t r.ids) ((text_eq_iff id j).0 y)))
    | inr n ↦ rw n f
  ]

  -- What is found is the new target or an old one.
  find_target-add :
      (j : Text) (h : ℕ)
      → find_target j (add_target id r).ids ≡ some h
      → ((id ≡ j) × (h ≡ r.fresh)) ⊎ (find_target j r.ids ≡ some h)
  unfolding find_target
  find_target-add j h f = elim (Bool-cases (text_eq id j)) [
    | inl y ↦ inl ((text_eq_iff id j).0 y, ground (arith, f, y))
    | inr n ↦ inr (ground (arith, f, n))
  ]

  apart_added :
      (i j : Text) (h : ℕ)
      → ((id ≡ i) × (h ≡ r.fresh)) ⊎ (find_target i r.ids ≡ some h)
      → ((id ≡ j) × (h ≡ r.fresh)) ⊎ (find_target j r.ids ≡ some h)
      → i ≡ j
  apart_added i j h (inl p) (inl q) = sym p.0 ∙ q.0
  apart_added i j h (inl p) (inr q) = absurd (omega (arith, p.1, k.made j h q))
  apart_added i j h (inr p) (inl q) = absurd (omega (arith, q.1, k.made i h p))
  apart_added i j h (inr p) (inr q) = k.apart i j h p q

  made_added :
      (j : Text) (h : ℕ)
      → ((id ≡ j) × (h ≡ r.fresh)) ⊎ (find_target j r.ids ≡ some h)
      → h < r.fresh + 1
  made_added j h (inl p) = omega (arith, p.1)
  made_added j h (inr p) = omega (arith, k.made j h p)

  counted_added :
      (j : Text) (h : ℕ)
      → ((id ≡ j) × (h ≡ r.fresh)) ⊎ (find_target j r.ids ≡ some h)
      → ((add_target id r).store h).leases ≡ count_at h live
  counted_added j h (inl p) =
      ap (λ g. ((add_target id r).store g).leases) p.1
      ∙ ap (λ u. u.leases) (put_target_hit r.fresh r.fresh new_target r.store (ground arith))
      ∙ sym (count_at_fresh r live k.made k.listed)
      ∙ ap (λ g. count_at g live) (sym p.1)
  counted_added j h (inr p) =
      ap (λ u. u.leases)
        (put_target_miss r.fresh h new_target r.store (ground (arith, k.made j h p)))
      ∙ k.counted j h p

  pub add_target-IsKept : length r.ids < 2 * max_web_rtc_sessions → IsKept (add_target id r) live
  add_target-IsKept room = record {
    bounded = omega (arith, room);
    made = λ j h f. made_added j h (find_target-add j h f);
    apart = λ i j h p q. apart_added i j h (find_target-add i h p) (find_target-add j h q);
    listed =
        All-IsListed r (add_target id r) live (λ l f. find_target-add_old (id_of l) l.target f)
          k.listed;
    counted = λ j h f. counted_added j h (find_target-add j h f);
    owed = λ h lt d. elim (Bool-cases (h == r.fresh)) [
      | inl y ↦
          absurd (ground (arith, subst HasDebt (put_target_hit r.fresh h new_target r.store y) d))
      | inr n ↦
          let old =
            k.owed h (ground (arith, n, lt))
              (subst HasDebt (put_target_miss r.fresh h new_target r.store n) d) in
          (old.0, find_target-add_old old.0 h old.1)
    ];
  }
