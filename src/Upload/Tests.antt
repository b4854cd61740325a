-- ===== src/Upload/Tests.antt =====
-- Runs of the upload manager of internal/agentcore/files/upload.go.
use labtether_linux.Base.{◌≡◌, refl, true, false, some, [], ◌∷◌, arith}
use labtether_linux.Base.Int.{pos}
use labtether_linux.Base.Text.{Text}
use labtether_linux.Upload.{
  PendingWrite, Manager, World, Request, write_chunk_context, close_all, accept_chunk, at_path,
  lookup_and_write, write_locked, append_chunk, finish_upload, chunk_error, find,
  remove_pending_write, remove_entry, expire_all, expire_pending_write,
}
use labtether_linux.Upload.Inv.{Inv, Keeps, write_chunk_context-Inv}
use labtether_linux.Upload.Writers.{Leaves}
use labtether_linux.Upload.Commit.{
  Committed, Refused, write_chunk_context-Committed, write_chunk_context-Refused,
}
use labtether_linux.Upload.Close.{IsClosedOff, close_all-IsClosedOff}

abbrev id_a : Text
id_a = 97 ∷ []

abbrev path_a : Text
path_a = 47 ∷ 97 ∷ []

abbrev two_bytes : PendingWrite
two_bytes = record {
  path = path_a;
  tmp = 5;
  written = 2;
  content = 1 ∷ 2 ∷ [];
  closed = false;
  last_activity = 100;
}

-- One upload is under way, with two bytes written.
abbrev under_way : Manager
under_way = record {
  writers = (id_a, 0) ∷ [];
  epoch = 7;
  store = λ h. two_bytes;
  next = 1;
  temps = 5 ∷ [];
  files = [];
  idle_ttl = 300;
}

-- A call that nothing disturbs.
abbrev quiet : World
quiet = record {
  now = 120;
  canceled_at_start = false;
  canceled_at_abort = false;
  canceled_at_lookup = false;
  canceled_at_write = false;
  canceled_at_commit = false;
  mkdir_ok = true;
  new_temp = some 6;
  write_ok = true;
  sync_ok = true;
  close_ok = true;
  rename_ok = true;
  remove_ok = true;
  before_lookup = λ m. m;
  before_write = λ m. m;
  during_write = λ h m. m;
}

-- The socket goes while the last chunk is written.
abbrev dropped : World
dropped = record quiet { canceled_at_commit = true }

abbrev last_chunk : Request
last_chunk = record {
  request_id = id_a;
  offset = pos 2;
  data_len = 4;
  decoded = some (3 ∷ []);
  done = true;
  path = some path_a;
}

abbrev ill_placed : Request
ill_placed = record last_chunk { offset = pos 1 }

runs_last : (write_chunk_context quiet last_chunk under_way).2.files ≡ (path_a, 1 ∷ 2 ∷ 3 ∷ []) ∷ []
unfolding write_chunk_context accept_chunk at_path lookup_and_write write_locked append_chunk
    finish_upload chunk_error find remove_pending_write remove_entry expire_all expire_pending_write
    labtether_linux.Base.Text.trim_space labtether_linux.Base.Text.byte_len
    labtether_linux.Base.Text.text_eq
runs_last = refl

under_way-Inv : Inv under_way
under_way-Inv = record {
  few = omega arith;
  sound = λ h. record { counted = refl; bounded = omega arith };
}

quiet-Keeps : Keeps quiet
quiet-Keeps = record { lookup = λ fm v. v; write = λ fm v. v; commit = λ h fm v. v }

dropped-Keeps : Keeps dropped
dropped-Keeps = record { lookup = λ fm v. v; write = λ fm v. v; commit = λ h fm v. v }

quiet-Leaves : Leaves quiet
quiet-Leaves = record {
  lookup_files = λ fm. refl;
  write_files = λ fm. refl;
  commit_files = λ h fm. refl;
  write_path = λ fm h. refl;
  commit_store = λ h fm. refl;
}

dropped-Leaves : Leaves dropped
dropped-Leaves = record {
  lookup_files = λ fm. refl;
  write_files = λ fm. refl;
  commit_files = λ h fm. refl;
  write_path = λ fm h. refl;
  commit_store = λ h fm. refl;
}

write_chunk_context-Committed_example :
    Committed last_chunk [] (write_chunk_context quiet last_chunk under_way)
write_chunk_context-Committed_example =
    write_chunk_context-Committed quiet last_chunk under_way quiet-Leaves quiet-Keeps under_way-Inv
      refl

write_chunk_context-Refused_example : Refused [] (write_chunk_context dropped last_chunk under_way)
write_chunk_context-Refused_example =
    write_chunk_context-Refused dropped last_chunk under_way dropped-Leaves dropped-Keeps
      under_way-Inv refl (λ h m. refl)

write_chunk_context-Inv_example : Inv (write_chunk_context quiet ill_placed under_way).2
write_chunk_context-Inv_example =
    write_chunk_context-Inv quiet ill_placed under_way quiet-Keeps under_way-Inv

close_all-IsClosedOff_example : IsClosedOff under_way (close_all true under_way)
close_all-IsClosedOff_example = close_all-IsClosedOff true under_way (omega arith)
