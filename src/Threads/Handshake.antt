-- ===== src/Threads/Handshake.antt =====
-- The handshakes at the start of the process and of a thread (libudirt/src/udirt-posix.c), with the
-- callbacks that open their pipes.
pub mod Answered
pub mod Connected
use udi.Cmd.{Cmd, fault, stuck, pure, ◌>>=◌, ◌>>◌}
use udi.Files.{FileCall, open_read, open_write}
use udi.Format.{ℤ, int, pos}
use udi.Machine.{Ptr}
use udi.Msg.{Cbor}
use udi.Msg.Debuggee.{Status, success, error, Thread, Debuggee, gets, modify, set_message}
use udi.Msg.Files.{
  request_file_name, response_file_name, attempt, attempt_or, with_thread_dir, with_thread_file,
  thread_create_callback,
}
use udi.Msg.Init.{perform_init_handshake}
use udi.Msg.Read.{Pipe}
use udi.Msg.Thread.{change_thread}
use udi.Msg.Write.{when_success}
use udi.Runtime.{on_thread}
use udi.Threads.{create_initial_thread}
use udi.Prelude.{ℕ, Option, none, some, List, [], ◌∷◌, String, ◌==◌, if◌then◌else◌}

-- What stands behind a request pipe once it is open, and the rest of them; the debugger opens it for
-- writing, or the process waits for good.
unfoldable pub with_request : List Pipe → (Pipe → Cmd Debuggee Status) → Cmd Debuggee Status
with_request [] next d = stuck
with_request (p ∷ later) next d = next p (record d { files = record d.files { requests = later } })

unfoldable pub open_request : (Pipe → Cmd Debuggee Status) → Cmd Debuggee Status
open_request next d = with_request d.files.requests next d

unfoldable pub thread_create_response_fd_callback : List ℕ → Cmd Debuggee Status
thread_create_response_fd_callback response_file =
    attempt_or error (open_write response_file) "failed to open %s: %e" response_file (pure success)

set_request_pipe : Ptr → Pipe → Cmd Debuggee (Unit {0})
set_request_pipe self p =
    modify
      λ d. record d { threads = change_thread self (λ t. record t { request_pipe = p }) d.threads }

-- An `open` whose failure sets a message of the `errno`.
unfoldable pub open_or : FileCall → String → Cmd Debuggee Status → Cmd Debuggee Status
open_or call format next = do
  errnum ← attempt call
  if errnum == 0 then next else (do set_message format (int (pos errnum) ∷ []); pure error)

put_out : Thread → Cmd Debuggee Status
put_out thr = do modify (λ d. record d { ctx = some thr }); pure success

open_events : Thread → Cmd Debuggee Status
open_events thr d =
    open_or (open_write d.files.eventsfile_name) "error opening response file fifo: %e"
      (put_out thr) d

make_files : Option Thread → Cmd Debuggee Status
make_files none = do set_message "failed to create initial thread" []; pure error
make_files (some thr) = do
  done ← thread_create_callback thr
  if done then open_events thr else pure error

pub process_response_fd_callback : Cmd Debuggee Status
process_response_fd_callback d =
    open_or (open_write d.files.responsefile_name) "error opening response file fifo: %e"
      (do thr ← create_initial_thread; make_files thr) d

module _ (cbor : Cbor) (strerror : ℤ → List ℕ) where
  pub thread_create_handshake : Thread → Cmd Debuggee Status
  thread_create_handshake thr = with_thread_dir error thr.id λ thread_dir.
      with_thread_file error thread_dir response_file_name λ response_file.
        with_thread_file error thread_dir request_file_name λ request_file.
          attempt_or error (open_read request_file) "failed to open %s: %e" request_file (
            open_request λ p. do
              set_request_pipe thr.self p
              on_thread thr.self (
                  perform_init_handshake cbor strerror
                    (thread_create_response_fd_callback response_file) thr.id))

  handshake_of : Option Thread → Cmd Debuggee Status
  handshake_of none = λ d. fault
  handshake_of (some thr) = thread_create_handshake thr

  -- With the process, and then with its first thread.
  process_handshake : Cmd Debuggee Status
  process_handshake = do
    tid ← gets (λ d. d.user_thread_id)
    result ← perform_init_handshake cbor strerror process_response_fd_callback tid
    thr ← gets (λ d. d.ctx)
    when_success result (handshake_of thr)

  -- All of `handshake_with_debugger` but that it enables the library.
  pub both_handshakes : Cmd Debuggee Status
  both_handshakes d =
      open_or (open_read d.files.requestfile_name) "error opening request file fifo: %e"
        (open_request λ p. do modify (λ d'. record d' { pipe = p; ctx = none }); process_handshake)
        d
