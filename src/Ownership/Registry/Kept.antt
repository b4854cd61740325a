-- ===== src/Ownership/Registry/Kept.antt =====
-- What the registry keeps: internal/agentcore/remoteaccess/webrtc_input_ownership.go.
use labtether_linux.Base.{
  ℕ, suc, ◌*◌, ◌≤◌, ◌<◌, ◌≡◌, refl, sym, ap, subst, ◌∙◌, true, false, none, some, List, [], ◌∷◌,
  ◌++◌, if◌then◌else◌, ◌==◌, length, All, arith, Bool-cases, inl, inr,
}
use labtether_linux.Base.Text.{Text, text_eq, text_eq_iff}
use labtether_linux.Ownership.{InputTarget, acquire_owner, max_web_rtc_sessions}
use labtether_linux.Ownership.Registry.{
  Registry, find_target, delete_target, put_target, lease_target, Lease, id_of,
}

-- The readers at a target.
abbrev pub count_at : ℕ → List Lease → ℕ
count_at h [] = 0
count_at h (l ∷ live) = if l.target == h then suc (count_at h live) else count_at h live

-- The lease's target is the one that is registered for its display.
abbrev pub IsListed : Registry → Lease → Type 0
IsListed r l = find_target (id_of l) r.ids ≡ some l.target

pub record IsKept (r : Registry) (live : List Lease) : Type 0 where
  pub bounded : length r.ids ≤ 2 * max_web_rtc_sessions
  pub made : (id : Text) (h : ℕ) → find_target id r.ids ≡ some h → h < r.fresh
  pub apart :
      (i j : Text) (h : ℕ) → find_target i r.ids ≡ some h → find_target j r.ids ≡ some h → i ≡ j
  pub listed : All (IsListed r) live
  pub counted :
      (id : Text) (h : ℕ) → find_target id r.ids ≡ some h → (r.store h).leases ≡ count_at h live
  pub owed :
      (h : ℕ)
      → h < r.fresh
      → (length (r.store h).pending == 0) ≡ false
      → (id : Text) × (find_target id r.ids ≡ some h)

pub find_target-delete_self :
    (id : Text) (ids : List (Text × ℕ)) → find_target id (delete_target id ids) ≡ none
unfolding find_target delete_target
find_target-delete_self id [] = refl
find_target-delete_self id ((i, h) ∷ ids) = ground (arith, find_target-delete_self id ids)

pub find_target-delete_other :
    (id j : Text) (ids : List (Text × ℕ))
    → text_eq id j ≡ false
    → find_target j (delete_target id ids) ≡ find_target j ids
unfolding find_target delete_target
find_target-delete_other id j [] n = refl
find_target-delete_other id j ((i, h) ∷ ids) n = elim (Bool-cases (text_eq i id)) [
  | inl y ↦
      rw (y, ap (λ t. text_eq t j) ((text_eq_iff i id).0 y) ∙ n)
        (find_target-delete_other id j ids n)
  | inr m ↦
      rw m (ap (λ rest. if text_eq i j then some h else rest) (find_target-delete_other id j ids n))
]

-- What is found after a deletion was there before it.
pub find_target-delete :
    (id j : Text) (ids : List (Text × ℕ)) (h : ℕ)
    → find_target j (delete_target id ids) ≡ some h
    → (text_eq id j ≡ false) × (find_target j ids ≡ some h)
find_target-delete id j ids h f = elim (Bool-cases (text_eq id j)) [
  | inl y ↦ absurd (
      ground (
        arith,
        f,
        find_target-delete_self id ids,
        ap (λ t. find_target t (delete_target id ids)) ((text_eq_iff id j).0 y),
      ))
  | inr n ↦ (n, sym (find_target-delete_other id j ids n) ∙ f)
]

pub length-delete_target :
    (id : Text) (ids : List (Text × ℕ)) → length (delete_target id ids) ≤ length ids
unfolding delete_target
length-delete_target id [] = omega arith
length-delete_target id ((i, h) ∷ ids) = ground (arith, length-delete_target id ids)

pub put_target_hit :
    (g h : ℕ) (t : InputTarget) (store : ℕ → InputTarget)
    → (h == g) ≡ true
    → put_target g t store h ≡ t
put_target_hit g h t store y = rw y refl

pub put_target_miss :
    (g h : ℕ) (t : InputTarget) (store : ℕ → InputTarget)
    → (h == g) ≡ false
    → put_target g t store h ≡ store h
put_target_miss g h t store n = rw n refl

pub same_handle : (g h : ℕ) → (h == g) ≡ true → h ≡ g
same_handle g h y = ground arith

abbrev pub HasDebt : InputTarget → Type 0
HasDebt t = (length t.pending == 0) ≡ false

pub All-middle :
    (P : Lease → Type 0) (before after : List Lease) (l : Lease)
    → All P (before ++ (l ∷ after))
    → P l
All-middle P [] after l a = a.0
All-middle P (x ∷ before) after l a = All-middle P before after l a.1

pub All-without :
    (P : Lease → Type 0) (before after : List Lease) (l : Lease)
    → All P (before ++ (l ∷ after))
    → All P (before ++ after)
All-without P [] after l a = a.1
All-without P (x ∷ before) after l a = (a.0, All-without P before after l a.1)

pub count_at-middle_hit :
    (h : ℕ) (before after : List Lease) (l : Lease)
    → (l.target == h) ≡ true
    → count_at h (before ++ (l ∷ after)) ≡ suc (count_at h (before ++ after))
count_at-middle_hit h [] after l y = rw y refl
count_at-middle_hit h (x ∷ before) after l y =
    ground (arith, count_at-middle_hit h before after l y)

pub count_at-middle_miss :
    (h : ℕ) (before after : List Lease) (l : Lease)
    → (l.target == h) ≡ false
    → count_at h (before ++ (l ∷ after)) ≡ count_at h (before ++ after)
count_at-middle_miss h [] after l n = rw n refl
count_at-middle_miss h (x ∷ before) after l n =
    ground (arith, count_at-middle_miss h before after l n)

-- A turn changes neither the map nor any count of leases, and the debt it makes is of a target that is listed.
pub turns-IsKept :
    (r : Registry) (live before after : List Lease) (l : Lease) (t : InputTarget)
    → IsKept r live
    → live ≡ before ++ (l ∷ after)
    → t.leases ≡ (r.store l.target).leases
    → IsKept (record r { store = put_target l.target t r.store }) live
turns-IsKept r live before after l t k split same = record {
  bounded = k.bounded;
  made = k.made;
  apart = k.apart;
  listed = k.listed;
  counted = λ id h f. elim (Bool-cases (h == l.target)) [
    | inl y ↦
        ap (λ u. u.leases) (put_target_hit l.target h t r.store y)
        ∙ same
        ∙ ap (λ g. (r.store g).leases) (sym (same_handle l.target h y))
        ∙ k.counted id h f
    | inr n ↦ ap (λ u. u.leases) (put_target_miss l.target h t r.store n) ∙ k.counted id h f
  ];
  owed = λ h lt d. elim (Bool-cases (h == l.target)) [
    | inl y ↦ (
      id_of l,
      All-middle (IsListed r) before after l (subst (All (IsListed r)) split k.listed)
          ∙ ap some (sym (same_handle l.target h y)),
    )
    | inr n ↦ k.owed h lt (subst HasDebt (put_target_miss l.target h t r.store n) d)
  ];
}

-- A lease of a target that is listed.
pub lease_target-IsKept :
    (r : Registry) (live : List Lease) (l : Lease) (o : ℕ)
    → IsKept r live
    → IsListed r l
    → IsKept (lease_target o l.target r) (l ∷ live)
unfolding acquire_owner
lease_target-IsKept r live l o k f = record {
  bounded = k.bounded;
  made = k.made;
  apart = k.apart;
  listed = (f, k.listed);
  counted = λ id h p. elim (Bool-cases (h == l.target)) [
    | inl y ↦
        ap (λ u. u.leases)
          (put_target_hit l.target h (acquire_owner o (r.store l.target)) r.store y)
        ∙ ground (
          arith,
          y,
          same_handle l.target h y,
          ap (λ g. (r.store g).leases) (same_handle l.target h y),
          k.counted id h p,
        )
    | inr n ↦
        ap (λ u. u.leases)
          (put_target_miss l.target h (acquire_owner o (r.store l.target)) r.store n)
        ∙ ground (arith, n, k.counted id h p)
  ];
  owed = λ h lt d. elim (Bool-cases (h == l.target)) [
    | inl y ↦ (id_of l, f ∙ ap some (sym (same_handle l.target h y)))
    | inr n ↦ k.owed h lt (
        subst HasDebt (put_target_miss l.target h (acquire_owner o (r.store l.target)) r.store n) d)
  ];
}
