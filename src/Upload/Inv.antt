-- ===== src/Upload/Inv.antt =====
-- The invariant of the upload manager of internal/agentcore/files/upload.go.
use labtether_linux.Base.{
  ℕ, ◌+◌, ◌≤◌, ◌<◌, ◌≡◌, refl, Bool, true, Option, none, some, List, [], ◌∷◌, if◌then◌else◌, ltb,
  ◌==◌, length, arith, length-append, Bool-cases, inl, inr,
}
use labtether_linux.Base.Text.{Text, text_eq, trim_space}
use labtether_linux.Base.Int.{pos_part}
use labtether_linux.Base.Result.{Result, ok, err}
use labtether_linux.Upload.{
  PendingWrite, Manager, World, Request, UploadError, Reply, find, remove_entry,
  remove_pending_write, put, without, cleanup_write_locked, abort_locked,
  abort_pending_write_context, expire_pending_write, expire_all, chunk_error, finish_upload,
  append_chunk, write_locked, reserve, with_new, lookup_and_write, at_path, accept_chunk,
  write_chunk_context, close_each, close_all, max_file_size, max_write_pending, give_up, is_lost,
  bytes_of,
}

-- The temporary file holds as many bytes as the upload counts, within the size limit.
pub record IsSound (pw : PendingWrite) : Type 0 where
  pub counted : pw.written ≡ length pw.content
  pub bounded : pw.written ≤ max_file_size

pub record Inv (fm : Manager) : Type 0 where
  pub few : length fm.writers ≤ max_write_pending
  pub sound : (h : ℕ) → IsSound (fm.store h)

-- What other goroutines do keeps the invariant.
pub record Keeps (w : World) : Type 0 where
  pub lookup : (fm : Manager) → Inv fm → Inv (w.before_lookup fm)
  pub write : (fm : Manager) → Inv fm → Inv (w.before_write fm)
  pub commit : (h : ℕ) (fm : Manager) → Inv fm → Inv (w.during_write h fm)

put-IsSound :
    (store : ℕ → PendingWrite) (h : ℕ) (pw : PendingWrite)
    → ((k : ℕ) → IsSound (store k))
    → IsSound pw
    → (k : ℕ) → IsSound (put store h pw k)
put-IsSound store h pw s p k = elim (Bool-cases (k == h)) [ inl e ↦ rw e p | inr e ↦ rw e (s k) ]

length-remove_entry :
    (id : Text) (h : ℕ) (ws : List (Text × ℕ)) → length (remove_entry id h ws) ≤ length ws
unfolding remove_entry
length-remove_entry id h [] = omega arith
length-remove_entry id h ((j, k) ∷ ws) = ground (arith, length-remove_entry id h ws)

pub cleanup_write_locked-Inv :
    (remove_ok : Bool) (fm : Manager) (id : Text) (h : ℕ)
    → Inv fm
    → Inv (cleanup_write_locked remove_ok fm id h)
unfolding cleanup_write_locked remove_pending_write
cleanup_write_locked-Inv remove_ok fm id h v = elim (Bool-cases (fm.store h).closed) [
  | inl shut ↦ rw (shut, cleanup_write_locked) (record { few = fewer; sound = v.sound })
  | inr open_ ↦
      rw (open_, cleanup_write_locked)
        (record {
          few = fewer;
          sound =
              put-IsSound fm.store h _ v.sound
                (record { counted = (v.sound h).counted; bounded = (v.sound h).bounded });
        })
]
  where
    fewer : length (remove_entry id h fm.writers) ≤ max_write_pending
    fewer = omega (arith, length-remove_entry id h fm.writers, v.few)

expire_pending_write-Inv :
    (remove_ok : Bool) (now : ℕ) (id : Text) (h : ℕ) (fm : Manager)
    → Inv fm
    → Inv (expire_pending_write remove_ok now id h fm)
unfolding expire_pending_write
expire_pending_write-Inv remove_ok now id h fm v =
    ground (arith, cleanup_write_locked-Inv remove_ok fm id h v, v)

pub expire_all-Inv :
    (remove_ok : Bool) (now : ℕ) (pending : List (Text × ℕ)) (fm : Manager)
    → Inv fm
    → Inv (expire_all remove_ok now pending fm)
unfolding expire_all
expire_all-Inv remove_ok now [] fm v = v
expire_all-Inv remove_ok now ((id, h) ∷ pending) fm v =
    expire_all-Inv remove_ok now pending _ (expire_pending_write-Inv remove_ok now id h fm v)

abort_locked-Inv :
    (w : World) (epoch : ℕ) (id : Text) (h : ℕ) (fm : Manager)
    → Inv fm
    → Inv (abort_locked w epoch id h fm).1
unfolding abort_locked
abort_locked-Inv w epoch id h fm v =
    ground (arith, cleanup_write_locked-Inv w.remove_ok fm id h v, v)

abort-Inv :
    (w : World) (epoch : ℕ) (id : Text) (fm : Manager)
    → Keeps w
    → Inv fm
    → Inv (abort_pending_write_context w epoch id fm).1
unfolding abort_pending_write_context
abort-Inv w epoch id fm k v = elim (Bool-cases (is_lost w.canceled_at_abort fm epoch)) [
  | inl lost ↦ rw (lost, abort_pending_write_context) v
  | inr owned ↦ rw (owned, abort_pending_write_context) (go (find id fm.writers))
]
  where
    go :
        (o : Option ℕ)
        → Inv
            (elim o as (λ _. ℕ × Manager) [
              | none ↦ (0, fm)
              | some h ↦ abort_locked w epoch id h (w.before_write fm)
            ]).1
    go none = v
    go (some h) = abort_locked-Inv w epoch id h _ (k.write fm v)

give_up-Inv :
    (w : World) (id : Text) (h : ℕ) (e : UploadError) (fm : Manager)
    → Inv fm
    → Inv (give_up w id h e fm).2
give_up-Inv w id h e fm v = cleanup_write_locked-Inv w.remove_ok fm id h v

committed-Inv :
    (fm : Manager) (id : Text) (h : ℕ) (temps : List ℕ) (files : List (Text × List ℕ))
    → Inv fm
    → Inv (
        remove_pending_write
          (record fm {
            store = put fm.store h (record (fm.store h) { closed = true });
            temps = temps;
            files = files;
          })
          id
          h)
unfolding remove_pending_write
committed-Inv fm id h temps files v = record {
  few = omega (arith, length-remove_entry id h fm.writers, v.few);
  sound =
      put-IsSound fm.store h _ v.sound
        (record { counted = (v.sound h).counted; bounded = (v.sound h).bounded });
}

finish_upload-Inv :
    (w : World) (epoch : ℕ) (id : Text) (h : ℕ) (fm : Manager)
    → Inv fm
    → Inv (finish_upload w epoch id h fm).2
unfolding finish_upload
finish_upload-Inv w epoch id h fm v = ground (
  arith,
  give_up-Inv w id h UploadError.canceled fm v,
  committed-Inv fm id h (without (fm.store h).tmp fm.temps)
      (((fm.store h).path, (fm.store h).content) ∷ fm.files) v,
)

append_chunk-Inv :
    (w : World) (h : ℕ) (bytes : List ℕ) (fm : Manager)
    → Inv fm
    → (fm.store h).written + length bytes ≤ max_file_size
    → Inv (append_chunk w h bytes fm)
unfolding append_chunk
append_chunk-Inv w h bytes fm v fits = record {
  few = v.few;
  sound = put-IsSound fm.store h _ v.sound (record {
    counted = omega (arith, (v.sound h).counted, length-append (fm.store h).content bytes);
    bounded = fits;
  });
}

write_locked-Inv :
    (w : World) (epoch : ℕ) (id : Text) (h offset : ℕ) (bytes : List ℕ) (done : Bool) (fm : Manager)
    → Keeps w
    → Inv fm
    → Inv (write_locked w epoch id h offset bytes done fm).2
unfolding write_locked
write_locked-Inv w epoch id h offset bytes done fm k v =
    elim (Bool-cases (ltb max_file_size ((fm.store h).written + length bytes))) [
      | inl large ↦ rw (large, write_locked) (ground (arith, gave_up, v))
      | inr fits ↦
          let g = append_chunk-Inv w h bytes fm v (ground arith) in
          rw (fits, write_locked)
            (ground (arith, gave_up, v, g, finish_upload-Inv w epoch id h _ (k.commit h _ g)))
    ]
  where
    gave_up : Inv (cleanup_write_locked w.remove_ok fm id h)
    gave_up = cleanup_write_locked-Inv w.remove_ok fm id h v

pub reserve_few :
    (w : World) (fm : Manager) (tmp : ℕ)
    → reserve w fm ≡ ok tmp
    → length fm.writers < max_write_pending
unfolding reserve
reserve_few w fm tmp e = ground arith

pub with_new-Inv :
    (w : World) (id path : Text) (tmp : ℕ) (fm : Manager)
    → Inv fm
    → length fm.writers < max_write_pending
    → Inv (with_new w id path tmp fm)
unfolding with_new
with_new-Inv w id path tmp fm v room = record {
  few = room;
  sound = put-IsSound fm.store fm.next _ v.sound (record { counted = refl; bounded = omega arith });
}

lookup_and_write-Inv :
    (w : World) (epoch : ℕ) (id path : Text) (offset : ℕ) (bytes : List ℕ) (done : Bool)
    (fm : Manager)
    → Keeps w
    → Inv fm
    → Inv (lookup_and_write w epoch id path offset bytes done fm).2
unfolding lookup_and_write
lookup_and_write-Inv w epoch id path offset bytes done fm k v =
    elim (Bool-cases (is_lost w.canceled_at_lookup fm epoch)) [
      | inl lost ↦ rw (lost, lookup_and_write) v
      | inr owned ↦ rw (owned, lookup_and_write) (found (find id fm.writers))
    ]
  where
    made :
        (r : Result UploadError ℕ)
        → reserve w fm ≡ r
        → Inv
            (elim r as (λ _. Reply) [
              | err e ↦ (0, some e, fm)
              | ok tmp ↦
                  write_locked w epoch id fm.next offset bytes done
                    (w.before_write (with_new w id path tmp fm))
            ]).2
    made (err e) q = v
    made (ok tmp) q =
        write_locked-Inv w epoch id fm.next offset bytes done _ k
          (k.write _ (with_new-Inv w id path tmp fm v (reserve_few w fm tmp q)))

    found :
        (o : Option ℕ)
        → Inv
            (elim o as (λ _. Reply) [
              | some h ↦
                  if text_eq (fm.store h).path path
                  then write_locked w epoch id h offset bytes done (w.before_write fm)
                  else (
                    0,
                    some UploadError.path_mismatch,
                    cleanup_write_locked w.remove_ok (w.before_write fm) id h,
                  )
              | none ↦ elim (reserve w fm) [
                | err e ↦ (0, some e, fm)
                | ok tmp ↦
                    write_locked w epoch id fm.next offset bytes done
                      (w.before_write (with_new w id path tmp fm))
              ]
            ]).2
    found none = made (reserve w fm) refl
    found (some h) = elim (Bool-cases (text_eq (fm.store h).path path)) [
      | inl same ↦ rw same (write_locked-Inv w epoch id h offset bytes done _ k (k.write fm v))
      | inr other ↦ rw other (cleanup_write_locked-Inv w.remove_ok _ id h (k.write fm v))
    ]

at_path-Inv :
    (w : World) (epoch : ℕ) (id : Text) (req : Request) (fm : Manager) (path : Option Text)
    → Keeps w
    → Inv fm
    → Inv (at_path w epoch id req fm path).2
unfolding at_path
at_path-Inv w epoch id req fm none k v = abort-Inv w epoch id fm k v
at_path-Inv w epoch id req fm (some path) k v =
    lookup_and_write-Inv w epoch id path (pos_part req.offset) (bytes_of req.decoded) req.done fm k
      v

accept_chunk-Inv :
    (w : World) (epoch : ℕ) (id : Text) (req : Request) (fm : Manager) (e : Option UploadError)
    → Keeps w
    → Inv fm
    → Inv (accept_chunk w epoch id req fm e).2
unfolding accept_chunk
accept_chunk-Inv w epoch id req fm (some e) k v = abort-Inv w epoch id fm k v
accept_chunk-Inv w epoch id req fm none k v =
    at_path-Inv w epoch id req _ req.path k
      (k.lookup _ (expire_all-Inv w.remove_ok w.now fm.writers fm v))

-- One chunk, however its disk operations end and whatever other goroutines do between its locks,
-- provided that they keep the invariant too: at most 64 uploads are pending, and each temporary
-- file holds exactly the bytes that its upload counts, within the size limit.
-- A chunk, whatever becomes of it and whatever other goroutines that keep the invariant do meanwhile,
-- keeps the manager's invariant: at most 64 uploads, each counting the bytes of its temporary
-- file, which are at most 512 MiB.
pub write_chunk_context-Inv :
    (w : World) (req : Request) (fm : Manager)
    → Keeps w
    → Inv fm
    → Inv (write_chunk_context w req fm).2
unfolding write_chunk_context
write_chunk_context-Inv w req fm k v =
    ground (
      arith,
      v,
      accept_chunk-Inv w fm.epoch (trim_space req.request_id) req fm (chunk_error req) k v,
    )

close_each-Inv :
    (remove_ok : Bool) (pending : List (Text × ℕ)) (fm : Manager)
    → Inv fm
    → Inv (close_each remove_ok pending fm)
unfolding close_each
close_each-Inv remove_ok [] fm v = v
close_each-Inv remove_ok ((id, h) ∷ pending) fm v =
    close_each-Inv remove_ok pending _ (cleanup_write_locked-Inv remove_ok fm id h v)

pub close_all-Inv : (remove_ok : Bool) (fm : Manager) → Inv fm → Inv (close_all remove_ok fm)
unfolding close_all
close_all-Inv remove_ok fm v =
    close_each-Inv remove_ok fm.writers _ (record { few = omega arith; sound = v.sound })
