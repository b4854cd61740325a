-- ===== src/Upload/Close.antt =====
-- `CloseAll` of internal/agentcore/files/upload.go.
use labtether_linux.Base.{
  ℕ, ◌+◌, ◌%◌, ◌^◌, ◌<◌, ◌≡◌, refl, ap, ◌∙◌, Bool, true, false, not, none, some, List, [], ◌∷◌,
  ◌==◌, arith, Bool-cases, inl, inr, All,
}
use labtether_linux.Base.Text.{Text}
use labtether_linux.Upload.{
  Manager, remove_entry, remove_pending_write, cleanup_write_locked, close_each, close_all, is_lost,
  has_pending_write, find,
}

cleanup_write_locked_closes :
    (r : Bool) (fm : Manager) (id : Text) (h : ℕ)
    → ((cleanup_write_locked r fm id h).store h).closed ≡ true
unfolding cleanup_write_locked remove_pending_write
cleanup_write_locked_closes r fm id h = ground arith

cleanup_write_locked_keeps :
    (r : Bool) (fm : Manager) (id : Text) (h k : ℕ)
    → (fm.store k).closed ≡ true
    → ((cleanup_write_locked r fm id h).store k).closed ≡ true
unfolding cleanup_write_locked remove_pending_write
cleanup_write_locked_keeps r fm id h k c = ground (arith, c)

close_each_keeps :
    (r : Bool) (pending : List (Text × ℕ)) (fm : Manager) (k : ℕ)
    → (fm.store k).closed ≡ true
    → ((close_each r pending fm).store k).closed ≡ true
unfolding close_each
close_each_keeps r [] fm k c = c
close_each_keeps r ((id, h) ∷ pending) fm k c =
    close_each_keeps r pending _ k (cleanup_write_locked_keeps r fm id h k c)

close_each_closes :
    (r : Bool) (pending : List (Text × ℕ)) (fm : Manager)
    → All (λ e. ((close_each r pending fm).store e.1).closed ≡ true) pending
unfolding close_each
close_each_closes r [] fm = tt
close_each_closes r ((id, h) ∷ pending) fm = (
  close_each_keeps r pending _ h (cleanup_write_locked_closes r fm id h),
  close_each_closes r pending (cleanup_write_locked r fm id h),
)

-- What an operation that cleans up entries leaves alone.
record Apart (fm m : Manager) : Type 0 where
  files : m.files ≡ fm.files
  epoch : m.epoch ≡ fm.epoch
  none_left : fm.writers ≡ [] → m.writers ≡ []

cleanup_write_locked-Apart :
    (r : Bool) (fm : Manager) (id : Text) (h : ℕ) → Apart fm (cleanup_write_locked r fm id h)
unfolding cleanup_write_locked remove_pending_write remove_entry
cleanup_write_locked-Apart r fm id h = elim (Bool-cases (fm.store h).closed) [
  | inl c ↦
      simp c (record { files = refl; epoch = refl; none_left = λ q. ap (remove_entry id h) q })
  | inr c ↦
      simp c (record { files = refl; epoch = refl; none_left = λ q. ap (remove_entry id h) q })
]

close_each-Apart :
    (r : Bool) (pending : List (Text × ℕ)) (fm : Manager) → Apart fm (close_each r pending fm)
unfolding close_each
close_each-Apart r [] fm = record { files = refl; epoch = refl; none_left = λ q. q }
close_each-Apart r ((id, h) ∷ pending) fm =
    let a = cleanup_write_locked-Apart r fm id h in
    let b = close_each-Apart r pending (cleanup_write_locked r fm id h) in
    record {
      files = b.files ∙ a.files;
      epoch = b.epoch ∙ a.epoch;
      none_left = λ q. b.none_left (a.none_left q);
    }

-- What a closed manager is, beside the manager before.
pub record IsClosedOff (before after : Manager) : Type 0 where
  pub none_left : after.writers ≡ []
  pub no_pending : (id : Text) → has_pending_write after id ≡ false
  pub all_closed : All (λ e. (after.store e.1).closed ≡ true) before.writers
  pub files : after.files ≡ before.files
  pub refuses : is_lost false after before.epoch ≡ true

next_epoch : (n : ℕ) → n < 2 ^ 64 → ((n + 1) % 2 ^ 64 == n) ≡ false
next_epoch n b = ground (arith, b)

-- A manager that is closed off keeps no entry, so it reports no upload as pending; every upload that it had is
-- closed, no committed file changed, and the calls that began before, with the old epoch, count as
-- cancelled from now on. Its epoch is one of 64 bits.
pub close_all-IsClosedOff :
    (r : Bool) (fm : Manager) → fm.epoch < 2 ^ 64 → IsClosedOff fm (close_all r fm)
unfolding close_all has_pending_write find
close_all-IsClosedOff r fm b =
    let start = record fm { writers = []; epoch = (fm.epoch + 1) % 2 ^ 64 } in
    let a = close_each-Apart r fm.writers start in
    let gone = a.none_left refl in
    record {
      none_left = gone;
      no_pending = λ id. ap (λ ws. elim (find id ws) [ none ↦ false | some h ↦ true ]) gone;
      all_closed = close_each_closes r fm.writers start;
      files = a.files;
      refuses = ap (λ e. not (e == fm.epoch)) a.epoch ∙ ap not (next_epoch fm.epoch b);
    }
