-- ===== src/Ownership/Registry/Released.antt =====
-- The end of a lease: internal/agentcore/remoteaccess/webrtc_input_ownership.go.
use labtether_linux.Base.{
  ℕ, ◌-◌, ◌<◌, ◌≡◌, sym, ap, subst, ◌∙◌, true, ◌&&◌, some, List, [], ◌∷◌, ◌++◌, ◌==◌, length, All,
  arith, Bool-cases, inl, inr,
}
use labtether_linux.Base.Text.{Text, text_eq, text_eq_iff}
use labtether_linux.Ownership.{InputTarget}
use labtether_linux.Ownership.Registry.{
  Registry, find_target, delete_target, put_target, release_target, Lease, id_of,
}
use labtether_linux.Ownership.Registry.Kept.{
  count_at, IsListed, IsKept, find_target-delete_other, find_target-delete, length-delete_target,
  put_target_hit, put_target_miss, same_handle, All-middle, All-without, count_at-middle_hit,
  count_at-middle_miss, HasDebt,
}

-- A reader leaves.
module _ (r : Registry) (before after : List Lease) (l : Lease)
    (k : IsKept r (before ++ (l ∷ after))) where
  abbrev rest : List Lease
  rest = before ++ after

  abbrev left : InputTarget
  left = record (r.store l.target) { leases = (r.store l.target).leases - 1 }

  l-IsListed : IsListed r l
  l-IsListed = All-middle (IsListed r) before after l k.listed

  -- The count of leases at the target was that of its readers, of whom one less is there.
  left_counted : left.leases ≡ count_at l.target rest
  left_counted = omega (
    arith,
    k.counted (id_of l) l.target l-IsListed,
    count_at-middle_hit l.target before after l (ground arith),
  )

  abbrev counted_down : Registry
  counted_down = record r { store = put_target l.target left r.store }

  counted_down_leases :
      (j : Text) (h : ℕ)
      → find_target j r.ids ≡ some h
      → (counted_down.store h).leases ≡ count_at h rest
  counted_down_leases j h f = elim (Bool-cases (h == l.target)) [
    | inl y ↦
        ap (λ u. u.leases) (put_target_hit l.target h left r.store y)
        ∙ left_counted
        ∙ ap (λ g. count_at g rest) (sym (same_handle l.target h y))
    | inr n ↦
        ap (λ u. u.leases) (put_target_miss l.target h left r.store n)
        ∙ k.counted j h f
        ∙ count_at-middle_miss h before after l (ground (arith, n))
  ]

  counted_down_owed :
      (h : ℕ)
      → h < r.fresh
      → HasDebt (counted_down.store h)
      → (id : Text) × (find_target id r.ids ≡ some h)
  counted_down_owed h lt d = elim (Bool-cases (h == l.target)) [
    | inl y ↦ (id_of l, l-IsListed ∙ ap some (sym (same_handle l.target h y)))
    | inr n ↦ k.owed h lt (subst HasDebt (put_target_miss l.target h left r.store n) d)
  ]

  counted_down-IsKept : IsKept counted_down rest
  counted_down-IsKept = record {
    bounded = k.bounded;
    made = k.made;
    apart = k.apart;
    listed = All-without (IsListed r) before after l k.listed;
    counted = counted_down_leases;
    owed = counted_down_owed;
  }

  abbrev forgotten : Registry
  forgotten = record counted_down { ids = delete_target (id_of l) r.ids }

  -- Nobody else is at a target that is forgotten.
  IsListed-forgotten :
      (live : List Lease)
      → All (IsListed r) live
      → count_at l.target live ≡ 0
      → All (IsListed forgotten) live
  IsListed-forgotten [] a none_left = tt
  IsListed-forgotten (x ∷ live) a none_left = elim (Bool-cases (x.target == l.target)) [
    | inl y ↦ absurd (ground (arith, none_left, y))
    | inr n ↦ elim (Bool-cases (text_eq (id_of l) (id_of x))) [
      | inl y ↦ absurd (
          ground (
            arith,
            n,
            l-IsListed,
            a.0,
            ap (λ t. find_target t r.ids) ((text_eq_iff (id_of l) (id_of x)).0 y),
          ))
      | inr m ↦ (
        find_target-delete_other (id_of l) (id_of x) r.ids m ∙ a.0,
        IsListed-forgotten live a.1 (ground (arith, none_left, n)),
      )
    ]
  ]

  forgotten-IsKept : left.leases ≡ 0 → (length left.pending == 0) ≡ true → IsKept forgotten rest
  forgotten-IsKept none_left no_debt = record {
    bounded = omega (arith, k.bounded, length-delete_target (id_of l) r.ids);
    made = λ j h f. k.made j h (find_target-delete (id_of l) j r.ids h f).1;
    apart = λ i j h p q.
        k.apart i j h (find_target-delete (id_of l) i r.ids h p).1
          (find_target-delete (id_of l) j r.ids h q).1;
    listed =
        IsListed-forgotten rest (All-without (IsListed r) before after l k.listed)
          (sym left_counted ∙ none_left);
    counted = λ j h f. counted_down_leases j h (find_target-delete (id_of l) j r.ids h f).1;
    owed = λ h lt d. elim (Bool-cases (h == l.target)) [
      | inl y ↦
          absurd
            (ground (arith, no_debt, subst HasDebt (put_target_hit l.target h left r.store y) d))
      | inr n ↦
          let old = k.owed h lt (subst HasDebt (put_target_miss l.target h left r.store n) d) in
          (
            old.0,
            elim (Bool-cases (text_eq (id_of l) old.0)) [
              | inl y ↦ absurd (
                  ground (
                    arith,
                    n,
                    l-IsListed,
                    old.1,
                    ap (λ t. find_target t r.ids) ((text_eq_iff (id_of l) old.0).0 y),
                  ))
              | inr m ↦ find_target-delete_other (id_of l) old.0 r.ids m ∙ old.1
            ],
          )
    ];
  }

  pub release_target-IsKept : IsKept (release_target (id_of l) l.target r) rest
  unfolding release_target
  release_target-IsKept = elim (Bool-cases ((left.leases == 0) && (length left.pending == 0))) [
    | inl y ↦ rw y (forgotten-IsKept (ground (arith, y)) (ground (arith, y)))
    | inr n ↦ rw n counted_down-IsKept
  ]
