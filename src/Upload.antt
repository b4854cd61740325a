-- ===== src/Upload.antt =====
-- The upload manager of internal/agentcore/files/upload.go. A pending write is a cell of a store, so
-- that `fm.writers[id] == pw` compares handles; the files on disk are the temporary files that exist
-- and the destinations that were committed, with their bytes.
pub mod State
pub mod Writers
pub mod Inv
pub mod Commit
pub mod Close
mod Tests
pub use State.*
use labtether_linux.Base.{
  ℕ, suc, ◌+◌, ◌-◌, ◌*◌, ◌%◌, ◌^◌, Bool, true, false, ◌&&◌, ◌||◌, not, Option, none, some, List, [],
  ◌∷◌, ◌++◌, if◌then◌else◌, ltb, leb, ◌==◌, length, keep,
}
use labtether_linux.Base.Int.{pos, negsuc, pos_part}
use labtether_linux.Base.Result.{Result, ok, err}
use labtether_linux.Base.Text.{Text, text_eq, trim_space, is_empty, byte_len}

pub find : Text → List (Text × ℕ) → Option ℕ
find id [] = none
find id ((j, h) ∷ ws) = if text_eq j id then some h else find id ws

-- `delete(fm.writers, requestID)` if the entry is this pending write.
pub remove_entry : Text → ℕ → List (Text × ℕ) → List (Text × ℕ)
remove_entry id h [] = []
remove_entry id h ((j, k) ∷ ws) =
    if text_eq j id then (if k == h then ws else (j, k) ∷ ws) else (j, k) ∷ remove_entry id h ws

pub remove_pending_write : Manager → Text → ℕ → Manager
remove_pending_write fm id h = record fm { writers = remove_entry id h fm.writers }

abbrev pub put : (ℕ → PendingWrite) → ℕ → PendingWrite → ℕ → PendingWrite
put store h pw k = if k == h then pw else store k

abbrev pub without : ℕ → List ℕ → List ℕ
without t = keep (λ k. not (k == t))

-- `cleanupWriteLocked`; `remove_ok` says whether the temporary file could be removed.
pub cleanup_write_locked : Bool → Manager → Text → ℕ → Manager
cleanup_write_locked remove_ok fm id h =
    let pw = fm.store h in
    if pw.closed
    then remove_pending_write fm id h
    else remove_pending_write
        (record fm {
          store = put fm.store h (record pw { closed = true });
          temps = if remove_ok then without pw.tmp fm.temps else fm.temps;
        })
        id h

-- `uploadOwnerErrorLocked`
abbrev pub is_lost : Bool → Manager → ℕ → Bool
is_lost context_done fm epoch = context_done || not (fm.epoch == epoch)

-- The part of `abortPendingWriteContext` under the upload's own lock.
pub abort_locked : World → ℕ → Text → ℕ → Manager → ℕ × Manager
abort_locked w epoch id h fm = (
  (fm.store h).written,
  if is_lost w.canceled_at_write fm epoch then fm else cleanup_write_locked w.remove_ok fm id h,
)

-- `abortPendingWriteContext`: the bytes written so far, and the manager after it.
pub abort_pending_write_context : World → ℕ → Text → Manager → ℕ × Manager
abort_pending_write_context w epoch id fm =
    if is_lost w.canceled_at_abort fm epoch then (0, fm) else elim (find id fm.writers) [
      | none ↦ (0, fm)
      | some h ↦ abort_locked w epoch id h (w.before_write fm)
    ]

-- `expirePendingWrite`. A clock that went back counts as no idle time.
pub expire_pending_write : Bool → ℕ → Text → ℕ → Manager → Manager
expire_pending_write remove_ok now id h fm =
    if (fm.store h).closed
    then fm
    else if ltb (now - (fm.store h).last_activity) fm.idle_ttl
    then fm
    else cleanup_write_locked remove_ok fm id h

-- `cleanupExpiredPendingWrites` over the entries that it copied.
pub expire_all : Bool → ℕ → List (Text × ℕ) → Manager → Manager
expire_all remove_ok now [] fm = fm
expire_all remove_ok now ((id, h) ∷ pending) fm =
    expire_all remove_ok now pending (expire_pending_write remove_ok now id h fm)

-- The checks of a chunk that abort the upload that it belongs to.
pub chunk_error : Request → Option UploadError
chunk_error req = elim req.offset [
  | negsuc n ↦ some negative_offset
  | pos n ↦
      if ltb max_encoded_chunk_size req.data_len then some chunk_too_large else elim req.decoded [
        | none ↦ some bad_base64
        | some bytes ↦
            if ltb file_chunk_size (length bytes)
            then some chunk_too_large
            else if (length bytes == 0) && not req.done
            then some empty_chunk
            else none
      ]
]

abbrev pub bytes_of : Option (List ℕ) → List ℕ
bytes_of none = []
bytes_of (some bytes) = bytes

-- The result of a call: the bytes that it reports, its error and the manager.
abbrev pub Reply : Type 0
Reply = ℕ × Option UploadError × Manager

-- A failure under the upload's lock: report what was written and clean up.
abbrev pub give_up : World → Text → ℕ → UploadError → Manager → Reply
give_up w id h e fm = ((fm.store h).written, some e, cleanup_write_locked w.remove_ok fm id h)

-- The last chunk: sync, close, and the rename under the manager's lock.
pub finish_upload : World → ℕ → Text → ℕ → Manager → Reply
finish_upload w epoch id h fm =
    let pw = fm.store h in
    if not w.sync_ok
    then give_up w id h sync_failed fm
    else if not w.close_ok
    then give_up w id h close_failed fm
    else if is_lost w.canceled_at_commit fm epoch
    then give_up w id h canceled fm
    else if not w.rename_ok
    then give_up w id h rename_failed fm
    else (
      pw.written,
      none,
      remove_pending_write
          (record fm {
            store = put fm.store h (record pw { closed = true });
            temps = without pw.tmp fm.temps;
            files = (pw.path, pw.content) ∷ fm.files;
          })
          id h,
    )

-- The chunk is in the temporary file and is counted.
pub append_chunk : World → ℕ → List ℕ → Manager → Manager
append_chunk w h bytes fm = record fm {
  store = put fm.store h (record (fm.store h) {
    written = (fm.store h).written + length bytes;
    content = (fm.store h).content ++ bytes;
    last_activity = w.now;
  });
}

-- The part of `WriteChunkContext` under the upload's own lock.
pub write_locked : World → ℕ → Text → ℕ → ℕ → List ℕ → Bool → Manager → Reply
write_locked w epoch id h offset bytes done fm =
    let pw = fm.store h in
    if is_lost w.canceled_at_write fm epoch
    then give_up w id h canceled fm
    else if pw.closed
    then (pw.written, some already_closed, fm)
    else if not (offset == pw.written)
    then give_up w id h offset_mismatch fm
    else if ltb max_file_size (pw.written + length bytes)
    then give_up w id h file_too_large fm
    else if not w.write_ok
    then give_up w id h write_failed fm
    else if done
    then finish_upload w epoch id h (w.during_write h (append_chunk w h bytes fm))
    else (pw.written + length bytes, none, append_chunk w h bytes fm)

-- The manager with a new pending write under the next handle.
pub with_new : World → Text → Text → ℕ → Manager → Manager
with_new w id path tmp fm = record fm {
  writers = (id, fm.next) ∷ fm.writers;
  store = put fm.store fm.next (record {
    path = path;
    tmp = tmp;
    written = 0;
    content = [];
    closed = false;
    last_activity = w.now;
  });
  next = suc fm.next;
  temps = tmp ∷ fm.temps;
}

-- The temporary file for a new upload, or the error that prevents it.
pub reserve : World → Manager → Result UploadError ℕ
reserve w fm =
    if leb max_write_pending (length fm.writers)
    then err too_many_uploads
    else if not w.mkdir_ok
    then err mkdir_failed
    else elim w.new_temp [ none ↦ err temp_failed | some tmp ↦ ok tmp ]

-- The lookup under the manager's lock, and what follows it.
pub lookup_and_write : World → ℕ → Text → Text → ℕ → List ℕ → Bool → Manager → Reply
lookup_and_write w epoch id path offset bytes done fm =
    if is_lost w.canceled_at_lookup fm epoch
    then (0, some canceled, fm)
    else elim (find id fm.writers) [
      | some h ↦
          if text_eq (fm.store h).path path
          then write_locked w epoch id h offset bytes done (w.before_write fm)
          else (0, some path_mismatch, cleanup_write_locked w.remove_ok (w.before_write fm) id h)
      | none ↦ elim (reserve w fm) [
        | err e ↦ (0, some e, fm)
        | ok tmp ↦
            write_locked w epoch id fm.next offset bytes done
              (w.before_write (with_new w id path tmp fm))
      ]
    ]

-- A call that aborts the upload of this request with an error.
abbrev pub abort_with : World → ℕ → Text → UploadError → Manager → Reply
abort_with w epoch id e fm =
    let (written, fm') = abort_pending_write_context w epoch id fm in (written, some e, fm')

-- What follows `OpenRootPath`.
pub at_path : World → ℕ → Text → Request → Manager → Option Text → Reply
at_path w epoch id req fm none = abort_with w epoch id bad_path fm
at_path w epoch id req fm (some path) =
    lookup_and_write w epoch id path (pos_part req.offset) (bytes_of req.decoded) req.done fm

-- What follows the checks of the chunk: the expiry of idle uploads and the path.
pub accept_chunk : World → ℕ → Text → Request → Manager → Option UploadError → Reply
accept_chunk w epoch id req fm (some e) = abort_with w epoch id e fm
accept_chunk w epoch id req fm none =
    at_path w epoch id req (w.before_lookup (expire_all w.remove_ok w.now fm.writers fm)) req.path

-- `WriteChunkContext`
pub write_chunk_context : World → Request → Manager → Reply
write_chunk_context w req fm =
    let id = trim_space req.request_id in
    if w.canceled_at_start
    then (0, some canceled, fm)
    else if is_empty id
    then (0, some id_required, fm)
    else if ltb max_file_write_request_id_len (byte_len id)
    then (0, some id_too_long, fm)
    else accept_chunk w fm.epoch id req fm (chunk_error req)

-- `CloseAll`: the epoch goes up, the entries go, and each upload is cleaned up.
pub close_each : Bool → List (Text × ℕ) → Manager → Manager
close_each remove_ok [] fm = fm
close_each remove_ok ((id, h) ∷ pending) fm =
    close_each remove_ok pending (cleanup_write_locked remove_ok fm id h)

pub close_all : Bool → Manager → Manager
close_all remove_ok fm =
    close_each remove_ok fm.writers (record fm { writers = []; epoch = (fm.epoch + 1) % 2 ^ 64 })

pub has_pending_write : Manager → Text → Bool
has_pending_write fm id = elim (find id fm.writers) [ none ↦ false | some h ↦ true ]
