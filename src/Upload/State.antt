-- ===== src/Upload/State.antt =====
-- The state and the messages of the upload manager: the types of internal/agentcore/files/handler.go
-- and upload.go, and their limits.
use labtether_linux.Base.{ℕ, ◌*◌, Bool, Option, List}
use labtether_linux.Base.Int.{ℤ}
use labtether_linux.Base.Text.{Text}

-- `PendingWrite`: `content` is what the temporary file holds, `tmp` names that file.
pub record PendingWrite : Type 0 where
  pub path : Text
  pub tmp : ℕ
  pub written : ℕ
  pub content : List ℕ
  pub closed : Bool
  pub last_activity : ℕ

-- `Manager`, with the store of its pending writes (`next` is the first unused handle) and the disk.
pub record Manager : Type 0 where
  pub writers : List (Text × ℕ)
  pub epoch : ℕ
  pub store : ℕ → PendingWrite
  pub next : ℕ
  pub temps : List ℕ
  pub files : List (Text × List ℕ)
  pub idle_ttl : ℕ

pub data UploadError : Type 0 where
  canceled id_required id_too_long negative_offset chunk_too_large bad_base64 empty_chunk bad_path
        too_many_uploads mkdir_failed temp_failed path_mismatch already_closed offset_mismatch
        file_too_large write_failed sync_failed close_failed rename_failed :
      UploadError

-- `agentmgr.FileWriteData`: `data_len` is the length of the encoded chunk and `decoded` what
-- base64 makes of it; `path` is where `OpenRootPath` leads, if it does.
pub record Request : Type 0 where
  pub request_id : Text
  pub offset : ℤ
  pub data_len : ℕ
  pub decoded : Option (List ℕ)
  pub done : Bool
  pub path : Option Text

-- What the call meets: the time, whether its socket's context is cancelled at each place that looks,
-- how each operation on the disk ends, and what other goroutines do while a lock is not held: before
-- the request is looked up, before the upload's own lock is taken, and, given the handle whose lock
-- is held, while the chunk is written.
pub record World : Type 0 where
  pub now : ℕ
  pub canceled_at_start : Bool
  pub canceled_at_abort : Bool
  pub canceled_at_lookup : Bool
  pub canceled_at_write : Bool
  pub canceled_at_commit : Bool
  pub mkdir_ok : Bool
  pub new_temp : Option ℕ
  pub write_ok : Bool
  pub sync_ok : Bool
  pub close_ok : Bool
  pub rename_ok : Bool
  pub remove_ok : Bool
  pub before_lookup : Manager → Manager
  pub before_write : Manager → Manager
  pub during_write : ℕ → Manager → Manager

abbrev pub file_chunk_size : ℕ
file_chunk_size = 64 * 1024

abbrev pub max_file_size : ℕ
max_file_size = 512 * 1024 * 1024

abbrev pub max_write_pending : ℕ
max_write_pending = 64

abbrev pub max_file_write_request_id_len : ℕ
max_file_write_request_id_len = 256

-- `base64.StdEncoding.EncodedLen(FileChunkSize)`
abbrev pub max_encoded_chunk_size : ℕ
max_encoded_chunk_size = 87384
