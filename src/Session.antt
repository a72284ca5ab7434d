-- ===== src/Session.antt =====
-- src/session.c, src/session.h and the struct of src/file.h that a session points to.
use mini_dropbox.Prelude.{ℕ, codes, List}

pub record FileInfo : Type 0 where
  pub size : ℕ
  pub chunk_count : ℕ
  pub checksum : List ℕ
  pub filename : List ℕ

pub data SessionType : Type 0 where
  sess_none sess_download sess_upload : SessionType

pub data SessionState : Type 0 where
  sstate_idle sstate_running sstate_interrupted : SessionState

-- `file_info` is the address of a `FileInfo`; `started_at` is the clock's reading.
pub record Session : Type 0 where
  pub type : SessionType
  pub state : SessionState
  pub file_info : ℕ
  pub last_transfered_chunk : ℕ
  pub started_at : ℕ × ℕ

-- `now` is what `clock_gettime` gives.
unfoldable pub session_init : ℕ × ℕ → ℕ → SessionType → Session
session_init now file_info type = record {
  type = type;
  state = sstate_idle;
  file_info = file_info;
  last_transfered_chunk = 0;
  started_at = now;
}

-- The names that `session_print` prints.
unfoldable pub sesstype_to_str : SessionType → List ℕ
sesstype_to_str sess_none = codes "SESS_NONE"
sesstype_to_str sess_download = codes "SESS_DOWNLOAD"
sesstype_to_str sess_upload = codes "SESS_UPLOAD"

unfoldable pub sstate_to_str : SessionState → List ℕ
sstate_to_str sstate_idle = codes "SSTATE_IDLE"
sstate_to_str sstate_running = codes "SSTATE_RUNNING"
sstate_to_str sstate_interrupted = codes "SSTATE_INTERRUPTED"
