-- ===== src/Upload/Writers.antt =====
-- The outcomes of a call of `WriteChunkContext` (internal/agentcore/files/upload.go): it fails before
-- it holds an upload's lock and leaves the committed files alone, or it works under that lock.
use labtether_linux.Base.{
  ℕ, ◌≡◌, refl, ◌∙◌, Bool, Option, none, some, List, [], ◌∷◌, if◌then◌else◌, ltb, arith, Bool-cases,
  inl, inr,
}
use labtether_linux.Base.Text.{Text, text_eq, text_eq_iff, trim_space, is_empty, byte_len}
use labtether_linux.Base.Int.{pos_part}
use labtether_linux.Base.Result.{Result, ok, err}
use labtether_linux.Upload.Inv.{Inv, Keeps, expire_all-Inv, reserve_few, with_new-Inv}
use labtether_linux.Upload.{
  Manager, World, Request, UploadError, Reply, find, remove_pending_write,
  max_file_write_request_id_len, cleanup_write_locked, abort_locked, abort_pending_write_context,
  expire_pending_write, expire_all, chunk_error, write_locked, reserve, with_new, lookup_and_write,
  at_path, accept_chunk, write_chunk_context, is_lost, bytes_of, abort_with,
}

-- Other goroutines commit no file, never change the path of an upload, and leave the upload alone
-- whose lock is held.
pub record Leaves (w : World) : Type 0 where
  pub lookup_files : (fm : Manager) → (w.before_lookup fm).files ≡ fm.files
  pub write_files : (fm : Manager) → (w.before_write fm).files ≡ fm.files
  pub commit_files : (h : ℕ) (fm : Manager) → (w.during_write h fm).files ≡ fm.files
  pub write_path : (fm : Manager) (h : ℕ) → ((w.before_write fm).store h).path ≡ (fm.store h).path
  pub commit_store : (h : ℕ) (fm : Manager) → (w.during_write h fm).store h ≡ fm.store h

pub files-cleanup_write_locked :
    (remove_ok : Bool) (fm : Manager) (id : Text) (h : ℕ)
    → (cleanup_write_locked remove_ok fm id h).files ≡ fm.files
unfolding cleanup_write_locked remove_pending_write
files-cleanup_write_locked remove_ok fm id h = ground arith

files-expire_all :
    (remove_ok : Bool) (now : ℕ) (pending : List (Text × ℕ)) (fm : Manager)
    → (expire_all remove_ok now pending fm).files ≡ fm.files
unfolding expire_all expire_pending_write
files-expire_all remove_ok now [] fm = refl
files-expire_all remove_ok now ((id, h) ∷ pending) fm =
    files-expire_all remove_ok now pending (expire_pending_write remove_ok now id h fm)
    ∙ ground (arith, files-cleanup_write_locked remove_ok fm id h)

files-abort_locked :
    (w : World) (epoch : ℕ) (id : Text) (h : ℕ) (fm : Manager)
    → (abort_locked w epoch id h fm).1.files ≡ fm.files
unfolding abort_locked
files-abort_locked w epoch id h fm = ground (arith, files-cleanup_write_locked w.remove_ok fm id h)

files-abort :
    (w : World) (epoch : ℕ) (id : Text) (fm : Manager)
    → Leaves w
    → (abort_pending_write_context w epoch id fm).1.files ≡ fm.files
unfolding abort_pending_write_context
files-abort w epoch id fm l = elim (Bool-cases (is_lost w.canceled_at_abort fm epoch)) [
  | inl lost ↦ rw (lost, abort_pending_write_context)
  | inr owned ↦ rw (owned, abort_pending_write_context) (go (find id fm.writers))
]
  where
    go :
        (o : Option ℕ)
        → (elim o as (λ _. ℕ × Manager) [
          | none ↦ (0, fm)
          | some h ↦ abort_locked w epoch id h (w.before_write fm)
        ]).1.files
          ≡ fm.files
    go none = refl
    go (some h) = files-abort_locked w epoch id h _ ∙ l.write_files fm

-- To prove `P` of the outcome of a call at `fm`, prove it of the failures that leave the files alone
-- and of the work under the lock.
pub record Outcomes {ℓ} (w : World) (req : Request) (fm : Manager) (P : Reply → Type ℓ)
    : Type ℓ where
  pub fails : (n : ℕ) (e : UploadError) (m : Manager) → m.files ≡ fm.files → P (n, some e, m)
  pub works :
      (h : ℕ) (path : Text) (m : Manager)
      → chunk_error req ≡ none
      → req.path ≡ some path
      → m.files ≡ fm.files
      → (m.store h).path ≡ path
      → Inv m
      → P (
          write_locked w fm.epoch
            (trim_space req.request_id)
            h
            (pos_part req.offset)
            (bytes_of req.decoded)
            req.done
            m)

module _ {ℓ} (w : World) (req : Request) (fm : Manager) (P : Reply → Type ℓ) (l : Leaves w)
    (k : Keeps w) (v : Inv fm) (o : Outcomes w req fm P) where
  abbrev id : Text
  id = trim_space req.request_id

  aborts : (e : UploadError) (m : Manager) → m.files ≡ fm.files → P (abort_with w fm.epoch id e m)
  aborts e m f = o.fails _ e _ (files-abort w fm.epoch id m l ∙ f)

  made :
      (path : Text) (m : Manager)
      → chunk_error req ≡ none
      → req.path ≡ some path
      → m.files ≡ fm.files
      → Inv m
      → (r : Result UploadError ℕ) → reserve w m ≡ r
      → P (elim r as (λ _. Reply) [
        | err e ↦ (0, some e, m)
        | ok tmp ↦
            write_locked w fm.epoch id m.next
              (pos_part req.offset)
              (bytes_of req.decoded)
              req.done
              (w.before_write (with_new w id path tmp m))
      ])
  unfolding with_new
  made path m c p f i (err e) q = o.fails 0 e m f
  made path m c p f i (ok tmp) q =
      o.works m.next path _ c p (l.write_files _ ∙ f) (l.write_path _ m.next ∙ ground arith)
        (k.write _ (with_new-Inv w id path tmp m i (reserve_few w m tmp q)))

  found :
      (path : Text) (m : Manager)
      → chunk_error req ≡ none
      → req.path ≡ some path
      → m.files ≡ fm.files
      → Inv m
      → (h? : Option ℕ)
      → P (elim h? as (λ _. Reply) [
        | some h ↦
            if text_eq (m.store h).path path
            then write_locked w fm.epoch id h
                (pos_part req.offset)
                (bytes_of req.decoded)
                req.done
                (w.before_write m)
            else (
              0,
              some UploadError.path_mismatch,
              cleanup_write_locked w.remove_ok (w.before_write m) id h,
            )
        | none ↦ elim (reserve w m) [
          | err e ↦ (0, some e, m)
          | ok tmp ↦
              write_locked w fm.epoch id m.next
                (pos_part req.offset)
                (bytes_of req.decoded)
                req.done
                (w.before_write (with_new w id path tmp m))
        ]
      ])
  found path m c p f i none = made path m c p f i (reserve w m) refl
  found path m c p f i (some h) = elim (Bool-cases (text_eq (m.store h).path path)) [
    | inl same ↦ rw same (
        o.works h path _ c p (l.write_files m ∙ f)
          (l.write_path m h ∙ (text_eq_iff (m.store h).path path).0 same) (k.write m i))
    | inr other ↦
        rw other
          (o.fails 0 _ _ (files-cleanup_write_locked w.remove_ok _ id h ∙ l.write_files m ∙ f))
  ]

  at :
      (path? : Option Text) (m : Manager)
      → chunk_error req ≡ none
      → req.path ≡ path?
      → m.files ≡ fm.files
      → Inv m
      → P (at_path w fm.epoch id req m path?)
  unfolding at_path lookup_and_write
  at none m c p f i = aborts UploadError.bad_path m f
  at (some path) m c p f i = elim (Bool-cases (is_lost w.canceled_at_lookup m fm.epoch)) [
    | inl lost ↦ rw (lost, lookup_and_write) (o.fails 0 _ m f)
    | inr owned ↦ rw (owned, lookup_and_write) (found path m c p f i (find id m.writers))
  ]

  accepted :
      (e : Option UploadError) → chunk_error req ≡ e → P (accept_chunk w fm.epoch id req fm e)
  unfolding accept_chunk
  accepted (some e) c = aborts e fm refl
  accepted none c =
      at req.path _ c refl (l.lookup_files _ ∙ files-expire_all w.remove_ok w.now fm.writers fm)
        (k.lookup _ (expire_all-Inv w.remove_ok w.now fm.writers fm v))

  pub write_chunk_context_cases : P (write_chunk_context w req fm)
  unfolding write_chunk_context
  write_chunk_context_cases = elim (Bool-cases w.canceled_at_start) [
    | inl gone ↦ simp gone (o.fails 0 _ fm refl)
    | inr live ↦ elim (Bool-cases (is_empty id)) [
      | inl blank ↦ simp (live, blank) (o.fails 0 _ fm refl)
      | inr named ↦ elim (Bool-cases (ltb max_file_write_request_id_len (byte_len id))) [
        | inl long ↦ simp (live, named, long) (o.fails 0 _ fm refl)
        | inr short ↦ simp (live, named, short) (accepted (chunk_error req) refl)
      ]
    ]
  ]
