-- ===== src/Server/Recorder/Sent.antt =====
-- What the statusRecorder of server/middleware.go reports.
use tgju_api_go.Common.{
  ℕ, ◌+◌, Bool, true, false, List, [], ◌∷◌, Option, none, some, All, ◌≡◌, refl, sym, ap, ◌∙◌, arith,
  if◌then◌else◌, Bool-cases, inl, inr,
}
use tgju_api_go.Server.Recorder.{
  Call, header_call, write_call, Recorder, is_informational, send, new_recorder, record_header,
  record_write, record_call, record_calls,
}

abbrev pub IsFinal : Call → Type 0
IsFinal (header_call n) = is_informational n ≡ false
IsFinal (write_call n) = Unit

-- the status that the client gets: 200 if the handler calls nothing
abbrev pub received : Option ℕ → ℕ
received none = 200
received (some n) = n

abbrev pub bytes : List Call → ℕ
bytes [] = 0
bytes (header_call n ∷ cs) = bytes cs
bytes (write_call n ∷ cs) = n + bytes cs

-- the recorder and the ResponseWriter agree
record Agrees (s : Recorder) : Type 0 where
  status : s.status ≡ received s.inner
  unsent : s.sent ≡ false → s.inner ≡ none

send_final : (n : ℕ) (o : Option ℕ) → is_informational n ≡ false → o ≡ none → send n o ≡ some n
send_final n none f e = rw f refl
send_final n (some m) f e = cc

header_by :
    (b : Bool) (n : ℕ) (s : Recorder)
    → s.sent ≡ b
    → is_informational n ≡ false
    → Agrees s
    → Agrees (if b then s else record s { sent = true; status = n; inner = send n s.inner })
header_by true n s e f a = a
header_by false n s e f a = record {
  status = sym (ap received (send_final n s.inner f (a.unsent e)));
  unsent = λ h. cc;
}

header-Agrees :
    (n : ℕ) (s : Recorder) → is_informational n ≡ false → Agrees s → Agrees (record_header n s)
unfolding record_header
header-Agrees n s f a = header_by s.sent n s refl f a

received_write : (o : Option ℕ) → received (send 200 o) ≡ received o
received_write none = refl
received_write (some m) = refl

write-Agrees : (n : ℕ) (s : Recorder) → Agrees s → Agrees (record_write n s)
unfolding record_write
write-Agrees n s a = record { status = a.status ∙ sym (received_write s.inner); unsent = λ h. cc }

record_call-Agrees : (c : Call) (s : Recorder) → IsFinal c → Agrees s → Agrees (record_call c s)
unfolding record_call
record_call-Agrees (header_call n) s f a = header-Agrees n s f a
record_call-Agrees (write_call n) s f a = write-Agrees n s a

record_calls-Agrees :
    (cs : List Call) (s : Recorder) → All IsFinal cs → Agrees s → Agrees (record_calls cs s)
unfolding record_calls
record_calls-Agrees [] s f a = a
record_calls-Agrees (c ∷ cs) s (f, fs) a =
    record_calls-Agrees cs (record_call c s) fs (record_call-Agrees c s f a)

new-Agrees : Agrees new_recorder
unfolding new_recorder
new-Agrees = record { status = refl; unsent = λ h. refl }

written_call :
    (c : Call) (cs : List Call) (s : Recorder)
    → (record_call c s).written + bytes cs ≡ s.written + bytes (c ∷ cs)
unfolding record_call record_header record_write
written_call (header_call n) cs s = elim (Bool-cases s.sent) [
  | inl e ↦ rw e refl
  | inr e ↦ rw e refl
]
written_call (write_call n) cs s = omega arith

written_calls : (cs : List Call) (s : Recorder) → (record_calls cs s).written ≡ s.written + bytes cs
unfolding record_calls
written_calls [] s = omega arith
written_calls (c ∷ cs) s = written_calls cs (record_call c s) ∙ written_call c cs s

new_written : new_recorder.written ≡ 0
unfolding new_recorder
new_written = refl

-- Whatever a handler calls, and in whatever order, the access log has the status that the client
-- gets and the number of bytes written, if the handler sends no informational status.
pub record_calls_lem :
    (cs : List Call)
    → All IsFinal cs
    → ((record_calls cs new_recorder).status ≡ received (record_calls cs new_recorder).inner)
      × ((record_calls cs new_recorder).written ≡ bytes cs)
record_calls_lem cs f = (
  (record_calls-Agrees cs new_recorder f new-Agrees).status,
  written_calls cs new_recorder ∙ ap (λ n. n + bytes cs) new_written ∙ omega arith,
)
