-- ===== src/Server/Recorder.antt =====
-- The statusRecorder of server/middleware.go in front of an http.ResponseWriter (net/http): of
-- that, the status that is sent. An informational status is not the response's.
pub mod Sent
use tgju_api_go.Common.{
  ℕ, ◌+◌, Bool, true, false, not, List, [], ◌∷◌, Option, none, some, ◌==◌, ◌&&◌, within,
  if◌then◌else◌,
}

-- what a handler does with its ResponseWriter; a write has the number of bytes that are written
pub data Call : Type 0 where
  header_call : ℕ → Call
  write_call : ℕ → Call

pub record Recorder : Type 0 where
  pub status : ℕ
  pub written : ℕ
  pub sent : Bool
  -- the status of the ResponseWriter underneath
  pub inner : Option ℕ

abbrev pub is_informational : ℕ → Bool
is_informational n = within 100 199 n && not (n == 101)

-- WriteHeader of the ResponseWriter
abbrev pub send : ℕ → Option ℕ → Option ℕ
send n none = if is_informational n then none else some n
send n (some m) = some m

-- as `accessLog` makes it
unfoldable pub new_recorder : Recorder
new_recorder = record { status = 200; written = 0; sent = false; inner = none }

-- statusRecorder.WriteHeader
unfoldable pub record_header : ℕ → Recorder → Recorder
record_header n s =
    if s.sent then s else record s { sent = true; status = n; inner = send n s.inner }

-- statusRecorder.Write
unfoldable pub record_write : ℕ → Recorder → Recorder
record_write n s = record s { sent = true; written = s.written + n; inner = send 200 s.inner }

unfoldable pub record_call : Call → Recorder → Recorder
unfolding record_header record_write
record_call (header_call n) s = record_header n s
record_call (write_call n) s = record_write n s

unfoldable pub record_calls : List Call → Recorder → Recorder
unfolding record_call
record_calls [] s = s
record_calls (c ∷ cs) s = record_calls cs (record_call c s)
