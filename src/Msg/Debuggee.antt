-- ===== src/Msg/Debuggee.antt =====
-- The state that the request handlers share: the memory and breakpoints, the threads, the request and
-- the response pipe. What system calls answer are lists of outcomes that calls use up; an empty list
-- means success.
use udi.Cmd.{Cmd, Run, ok, fault, stuck}
use udi.Format.{Arg, ℤ, formatted_str, text_of}
use udi.Files.{Files}
use udi.Machine.{Ptr, Machine, Message, set_errmsg}
use udi.Msg.Read.{Pipe}
use udi.Register.{Context}
use udi.Prelude.{
  ℕ, ◌-◌, Bool, true, false, Option, List, [], ◌∷◌, ◌++◌, String, codes, ◌==◌, if◌then◌else◌,
  replicate, drop,
}

-- `RESULT_SUCCESS`, `RESULT_ERROR` and `RESULT_FAILURE`
pub data Status : Type 0 where
  success error failure : Status

pub data ThreadState : Type 0 where
  running suspended : ThreadState

-- `struct thread_struct`; `self` is its address.
pub record Thread : Type 0 where
  pub self : Ptr
  pub id : ℕ
  pub ts : ThreadState
  pub dead : Bool
  pub single_step : Bool
  pub single_step_bp : Ptr
  -- `event_state`
  pub context_valid : Bool
  pub context : Context
  pub signal : ℕ
  pub control_thread : Bool
  pub suspend_pending : Bool
  pub stack_event_pending : Bool
  -- what stands behind `request_handle` and `response_handle`
  pub request_pipe : Pipe
  pub response_output : List ℕ

pub record Debuggee : Type 0 where
  pub machine : Machine
  pub pipe : Pipe
  pub output : List ℕ
  -- what was written to `events_handle`
  pub events : List ℕ
  -- outcomes of `write_to`: an `errno`, 0 for success
  pub write_errors : List ℕ
  pub pipe_write_failure : Bool
  pub continue_bp : Ptr
  pub last_bp_address : ℕ
  pub exit_bp : Ptr
  -- what `get_user_thread_id` returns
  pub user_thread_id : ℕ
  pub threads : List Thread
  pub num_threads : ℕ
  pub multithread_capable : Bool
  -- outcomes of `close` and of `pipe` (an `errno`, 0 for success), and the addresses that the allocator
  -- gives to structures of threads
  pub closes : List ℕ
  pub pipes : List ℕ
  pub addresses : List Ptr
  pub files : Files
  -- the thread that a callback of the init handshake puts out
  pub ctx : Option Thread
  pub exiting : Bool
  pub pass_signal : ℕ
  -- the signals that the process sent to itself, and whether it removed its part of the file system
  pub killed : List ℕ
  pub filesystem_removed : Bool

abbrev on_run : {A : Type 0} → Debuggee → Run Machine A → Run Debuggee A
on_run d (ok a m) = ok a (record d { machine = m })
on_run d fault = fault
on_run d stuck = stuck

abbrev on_events_run : {A : Type 0} → List ℕ → Run Debuggee A → Run Debuggee A
on_events_run output (ok a d) = ok a (record d { output = output; events = d.output })
on_events_run output fault = fault
on_events_run output stuck = stuck

-- A function that is given `events_handle` for its descriptor.
abbrev pub on_events : {A : Type 0} → Cmd Debuggee A → Cmd Debuggee A
on_events f d = on_events_run d.output (f (record d { output = d.events }))

-- A function on the memory and the breakpoints.
abbrev pub on_machine : {A : Type 0} → Cmd Machine A → Cmd Debuggee A
on_machine f d = on_run d (f d.machine)

abbrev pub gets : {A : Type 0} → (Debuggee → A) → Cmd Debuggee A
gets f d = ok (f d) d

abbrev pub modify : (Debuggee → Debuggee) → Cmd Debuggee (Unit {0})
modify f d = ok tt (f d)

unfoldable pub set_message : String → List Arg → Cmd Debuggee (Unit {0})
set_message format args = on_machine (set_errmsg format args)

abbrev pub errmsg_size : ℕ
errmsg_size = 4096

-- `errmsg->msg` after `udi_set_errmsg`; `none` is a fault of the formatter.
pub errmsg_text : (ℤ → List ℕ) → Message → Option (List ℕ)
errmsg_text strerror m =
    text_of (formatted_str strerror (replicate errmsg_size 0) errmsg_size (codes m.format) m.args)

abbrev first : List ℕ → ℕ
first [] = 0
first (n ∷ ns) = n

abbrev others : {A : Type 0} → List A → List A
others [] = []
others (a ∷ rest) = rest

abbrev pub epipe : ℕ
epipe = 32

-- The `errno`, 0 for success. What an attempt that fails has written is not in `output`.
unfoldable pub write_to : List ℕ → Cmd Debuggee ℕ
write_to bytes d =
    let errnum = first d.write_errors in
    ok errnum (record d {
      write_errors = others d.write_errors;
      output = if errnum == 0 then d.output ++ bytes else d.output;
      pipe_write_failure = if errnum == epipe then true else d.pipe_write_failure;
    })

unfoldable pub close : Cmd Debuggee ℕ
close d = ok (first d.closes) (record d { closes = others d.closes })

-- The list without the thread that starts at `self`, where it is not the first.
unfoldable pub drop_thread : Ptr → List Thread → List Thread
drop_thread self [] = []
drop_thread self (t ∷ ts) = if t.self == self then ts else t ∷ drop_thread self ts

unfoldable pub has_thread : Ptr → List Thread → Bool
has_thread self [] = false
has_thread self (t ∷ ts) = if t.self == self then true else has_thread self ts

-- `threads = NULL` if the thread is the first
unfoldable pub unlink_thread : Ptr → List Thread → List Thread
unlink_thread self [] = []
unlink_thread self (t ∷ ts) = if t.self == self then [] else drop_thread self (t ∷ ts)

-- The results of the two calls of `close` on the control pipe are not read.
unfoldable pub destroy_thread : Ptr → Cmd Debuggee (Unit {0})
destroy_thread self = modify λ d.
    if has_thread self d.threads
    then record d {
      threads = unlink_thread self d.threads;
      num_threads = d.num_threads - 1;
      closes = drop 2 d.closes;
    }
    else d

unfoldable pub post_continue_hook : ℕ → Cmd Debuggee (Unit {0})
post_continue_hook sig = modify λ d.
    if d.exiting
    then record d { filesystem_removed = true }
    else record d { pass_signal = sig; killed = d.killed ++ (sig ∷ []) }
