-- ===== src/Upload/Commit.antt =====
-- When an upload of internal/agentcore/files/upload.go reaches its destination.
use labtether_linux.Base.{
  ℕ, ◌+◌, ◌≤◌, ◌≡◌, ◌≢◌, refl, ap, sym, subst, ◌∙◌, true, none, some, List, ◌∷◌, ◌++◌, ltb, ◌==◌,
  length, arith, Bool-cases, inl, inr, length-append,
}
use labtether_linux.Base.Text.{Text, trim_space}
use labtether_linux.Base.Int.{ℤ, pos, negsuc, pos_part}
use labtether_linux.Upload.{
  Manager, World, Request, UploadError, Reply, remove_pending_write, max_file_size, chunk_error,
  finish_upload, append_chunk, write_locked, write_chunk_context, give_up, is_lost, bytes_of,
}
use labtether_linux.Upload.Inv.{Inv, Keeps}
use labtether_linux.Upload.Writers.{Leaves, files-cleanup_write_locked, write_chunk_context_cases}

-- What the reply of a final chunk says of the files: an error, and they are the old ones; or the
-- bytes written before this chunk, as many as its offset says, and the chunk behind them are
-- committed under the path of the request, and their number is reported.
pub data Committed (req : Request) (old : List (Text × List ℕ)) (r : Reply) : Type 0 where
  kept : (e : UploadError) → r.1 ≡ some e → r.2.files ≡ old → Committed req old r
  stored :
      (path : Text) (before : List ℕ)
      → r.1 ≡ none
      → req.path ≡ some path
      → req.offset ≡ pos (length before)
      → r.0 ≡ length (before ++ bytes_of req.decoded)
      → r.0 ≤ max_file_size
      → r.2.files ≡ (path, before ++ bytes_of req.decoded) ∷ old
      → Committed req old r

finish_upload-Committed :
    (w : World) (req : Request) (epoch : ℕ) (id path : Text) (h : ℕ) (before : List ℕ)
    (old : List (Text × List ℕ)) (fm : Manager)
    → fm.files ≡ old
    → (fm.store h).path ≡ path
    → (fm.store h).content ≡ before ++ bytes_of req.decoded
    → (fm.store h).written ≡ length (before ++ bytes_of req.decoded)
    → (fm.store h).written ≤ max_file_size
    → req.path ≡ some path
    → req.offset ≡ pos (length before)
    → Committed req old (finish_upload w epoch id h fm)
unfolding finish_upload remove_pending_write
finish_upload-Committed w req epoch id path h before old fm f p c n b rp ro =
    elim (Bool-cases w.sync_ok) [
      | inr e ↦ simp e (gave_up UploadError.sync_failed)
      | inl synced ↦ elim (Bool-cases w.close_ok) [
        | inr e ↦ simp (synced, e) (gave_up UploadError.close_failed)
        | inl shut ↦ elim (Bool-cases (is_lost w.canceled_at_commit fm epoch)) [
          | inl lost ↦ simp (synced, shut, lost) (gave_up UploadError.canceled)
          | inr owned ↦ elim (Bool-cases w.rename_ok) [
            | inr e ↦ simp (synced, shut, owned, e) (gave_up UploadError.rename_failed)
            | inl renamed ↦
                simp (synced, shut, owned, renamed)
                  (stored path before refl rp ro n b (ground arith))
          ]
        ]
      ]
    ]
  where
    gave_up : (e : UploadError) → Committed req old (give_up w id h e fm)
    gave_up e = kept e refl (files-cleanup_write_locked w.remove_ok fm id h ∙ f)

write_locked-Committed :
    (w : World) (req : Request) (epoch : ℕ) (id path : Text) (h n : ℕ) (old : List (Text × List ℕ))
    (fm : Manager)
    → Leaves w
    → Inv fm
    → fm.files ≡ old
    → (fm.store h).path ≡ path
    → req.path ≡ some path
    → req.offset ≡ pos n
    → Committed req old (write_locked w epoch id h n (bytes_of req.decoded) true fm)
unfolding write_locked
write_locked-Committed w req epoch id path h n old fm l v f p rp ro =
    elim (Bool-cases (is_lost w.canceled_at_write fm epoch)) [
      | inl lost ↦ simp lost (gave_up UploadError.canceled)
      | inr owned ↦ elim (Bool-cases (fm.store h).closed) [
        | inl shut ↦ simp (owned, shut) (kept UploadError.already_closed refl f)
        | inr open_ ↦ elim (Bool-cases (n == (fm.store h).written)) [
          | inr e ↦ simp (owned, open_, e) (gave_up UploadError.offset_mismatch)
          | inl next ↦ elim (Bool-cases (ltb max_file_size ((fm.store h).written + length bytes))) [
            | inl e ↦ simp (owned, open_, next, e) (gave_up UploadError.file_too_large)
            | inr fits ↦ elim (Bool-cases w.write_ok) [
              | inr e ↦ simp (owned, open_, next, fits, e) (gave_up UploadError.write_failed)
              | inl wrote ↦
                  simp (owned, open_, next, fits, wrote) (last (ground arith) (ground arith))
            ]
          ]
        ]
      ]
    ]
  where
    bytes : List ℕ
    bytes = bytes_of req.decoded

    gave_up : (e : UploadError) → Committed req old (give_up w id h e fm)
    gave_up e = kept e refl (files-cleanup_write_locked w.remove_ok fm id h ∙ f)

    after : Manager
    after = w.during_write h (append_chunk w h bytes fm)

    same : after.store h ≡ (append_chunk w h bytes fm).store h
    same = l.commit_store h (append_chunk w h bytes fm)

    last :
        n ≡ (fm.store h).written
        → (fm.store h).written + length bytes ≤ max_file_size
        → Committed req old (finish_upload w epoch id h after)
    last next fits =
        finish_upload-Committed w req epoch id path h (fm.store h).content old after
          (l.commit_files h (append_chunk w h bytes fm) ∙ (unfold append_chunk in f))
          (ap (λ q. q.path) same ∙ (unfold append_chunk in ground (arith, p)))
          (ap (λ q. q.content) same ∙ (unfold append_chunk in ground arith))
          (ap (λ q. q.written) same
            ∙ (unfold append_chunk in
                ground (arith, (v.sound h).counted, length-append (fm.store h).content bytes)))
          (unfold append_chunk in ground (arith, ap (λ q. q.written) same)) rp
          (ro ∙ ap pos (next ∙ (v.sound h).counted))

offset-pos : (req : Request) → chunk_error req ≡ none → req.offset ≡ pos (pos_part req.offset)
unfolding chunk_error
offset-pos req c = go req.offset refl
  where
    go : (z : ℤ) → req.offset ≡ z → req.offset ≡ pos (pos_part req.offset)
    go (pos n) q = rw q refl
    go (negsuc n) q = ground (arith, q, c)

-- A final chunk of an upload either returns an error, and no committed file changes, or it returns
-- none, and exactly one file is committed, under the path of the request: the bytes written before,
-- as many as the offset of the chunk says, and behind them the bytes of the chunk, at most 512 MiB in all, and
-- the reply counts them. It holds whatever other goroutines do between the locks, provided that they
-- commit no file themselves, keep the manager's invariant and the uploads' paths, and leave the upload alone
-- whose lock is held.
pub write_chunk_context-Committed :
    (w : World) (req : Request) (fm : Manager)
    → Leaves w
    → Keeps w
    → Inv fm
    → req.done ≡ true
    → Committed req fm.files (write_chunk_context w req fm)
write_chunk_context-Committed w req fm l k v d =
    write_chunk_context_cases w req fm (Committed req fm.files) l k v (record {
      fails = λ n e m f. kept e refl f;
      works = λ h path m c p f q i.
          subst
            (λ b. Committed req fm.files (
              write_locked w fm.epoch (trim_space req.request_id) h (pos_part req.offset)
                (bytes_of req.decoded) b m))
            (sym d)
            (write_locked-Committed w req fm.epoch (trim_space req.request_id) path h
              (pos_part req.offset) fm.files m l i f q p (offset-pos req c));
    })

-- The reply is an error, and no committed file changed.
pub record Refused (old : List (Text × List ℕ)) (r : Reply) : Type 0 where
  pub failed : r.1 ≢ none
  pub same : r.2.files ≡ old

finish_upload-Refused :
    (w : World) (epoch : ℕ) (id : Text) (h : ℕ) (old : List (Text × List ℕ)) (fm : Manager)
    → is_lost w.canceled_at_commit fm epoch ≡ true
    → fm.files ≡ old
    → Refused old (finish_upload w epoch id h fm)
unfolding finish_upload
finish_upload-Refused w epoch id h old fm lost f = elim (Bool-cases w.sync_ok) [
  | inr e ↦ simp e (gave_up UploadError.sync_failed)
  | inl synced ↦ elim (Bool-cases w.close_ok) [
    | inr e ↦ simp (synced, e) (gave_up UploadError.close_failed)
    | inl shut ↦ simp (synced, shut, lost) (gave_up UploadError.canceled)
  ]
]
  where
    gave_up : (e : UploadError) → Refused old (give_up w id h e fm)
    gave_up e = record {
      failed = λ q. ground (arith, q);
      same = files-cleanup_write_locked w.remove_ok fm id h ∙ f;
    }

write_locked-Refused :
    (w : World) (epoch : ℕ) (id : Text) (h n : ℕ) (bytes : List ℕ) (old : List (Text × List ℕ))
    (fm : Manager)
    → Leaves w
    → ((k : ℕ) (m : Manager) → is_lost w.canceled_at_commit (w.during_write k m) epoch ≡ true)
    → fm.files ≡ old
    → Refused old (write_locked w epoch id h n bytes true fm)
unfolding write_locked
write_locked-Refused w epoch id h n bytes old fm l lost f =
    elim (Bool-cases (is_lost w.canceled_at_write fm epoch)) [
      | inl e ↦ simp e (gave_up UploadError.canceled)
      | inr owned ↦ elim (Bool-cases (fm.store h).closed) [
        | inl shut ↦ simp (owned, shut) (record { failed = λ q. ground (arith, q); same = f })
        | inr open_ ↦ elim (Bool-cases (n == (fm.store h).written)) [
          | inr e ↦ simp (owned, open_, e) (gave_up UploadError.offset_mismatch)
          | inl next ↦ elim (Bool-cases (ltb max_file_size ((fm.store h).written + length bytes))) [
            | inl e ↦ simp (owned, open_, next, e) (gave_up UploadError.file_too_large)
            | inr fits ↦ elim (Bool-cases w.write_ok) [
              | inr e ↦ simp (owned, open_, next, fits, e) (gave_up UploadError.write_failed)
              | inl wrote ↦ simp (owned, open_, next, fits, wrote) last
            ]
          ]
        ]
      ]
    ]
  where
    gave_up : (e : UploadError) → Refused old (give_up w id h e fm)
    gave_up e = record {
      failed = λ q. ground (arith, q);
      same = files-cleanup_write_locked w.remove_ok fm id h ∙ f;
    }

    last : Refused old (finish_upload w epoch id h (w.during_write h (append_chunk w h bytes fm)))
    last =
        finish_upload-Refused w epoch id h old _ (lost h _)
          (l.commit_files h (append_chunk w h bytes fm) ∙ (unfold append_chunk in f))

-- A final chunk whose socket is cancelled, or whose manager is closed, by the time that it would be
-- committed returns an error and commits nothing, whatever was written before.
pub write_chunk_context-Refused :
    (w : World) (req : Request) (fm : Manager)
    → Leaves w
    → Keeps w
    → Inv fm
    → req.done ≡ true
    → ((h : ℕ) (m : Manager) → is_lost w.canceled_at_commit (w.during_write h m) fm.epoch ≡ true)
    → Refused fm.files (write_chunk_context w req fm)
write_chunk_context-Refused w req fm l k v d lost =
    write_chunk_context_cases w req fm (Refused fm.files) l k v (record {
      fails = λ n e m f. record { failed = λ q. ground (arith, q); same = f };
      works = λ h path m c p f q i.
          subst
            (λ b. Refused fm.files (
              write_locked w fm.epoch (trim_space req.request_id) h (pos_part req.offset)
                (bytes_of req.decoded) b m))
            (sym d)
            (write_locked-Refused w fm.epoch (trim_space req.request_id) h (pos_part req.offset)
              (bytes_of req.decoded) fm.files m l lost f);
    })
