-- ===== src/Threads.antt =====
-- The list of threads of libudirt/src/udirt-posix-pthreads.c: how a thread gets its structure and is
-- found again, and how its death is reported (with `thread_death_callback` of udirt-posix.c);
-- `destroy_thread` is with the state of the request handlers. Without addresses, memory is exhausted.
pub mod Linked
pub mod Handshake
use udi.Barrier.{thread_of_id}
use udi.Cmd.{Cmd, Run, ok, fault, stuck, pure, ◌>>=◌, ◌>>◌}
use udi.Format.{int, u64, pos}
use udi.Machine.{Ptr, null}
use udi.Msg.{Cbor}
use udi.Msg.Debuggee.{Status, success, error, running, Thread, Debuggee, modify, set_message, close}
use udi.Msg.Events.{handle_thread_death_event}
use udi.Msg.Thread.{change_thread}
use udi.Prelude.{
  ℕ, ◌+◌, Bool, true, false, ◌&&◌, ◌||◌, Option, none, some, List, [], ◌∷◌, ◌++◌, ◌==◌,
  if◌then◌else◌,
}

abbrev first : List ℕ → ℕ
first [] = 0
first (n ∷ ns) = n

abbrev others : List ℕ → List ℕ
others [] = []
others (n ∷ ns) = ns

udi_malloc : Cmd Debuggee Ptr
udi_malloc s = ok (first s.addresses) (record s { addresses = others s.addresses })

-- True is the result 0.
pub init_control_pipe : Cmd Debuggee Bool
init_control_pipe s =
    if s.multithread_capable
    then ok (first s.pipes == 0) (record s { pipes = others s.pipes })
    else ok true s

-- It sets the pointer to NULL.
allocate_context_data : Cmd Debuggee Bool
allocate_context_data = pure true

-- The structure after the `memset` and the assignments. A handle of -1 reads nothing.
abbrev pub new_thread : Ptr → ℕ → Thread
new_thread self tid = record {
  self = self;
  id = tid;
  ts = running;
  dead = false;
  single_step = false;
  single_step_bp = null;
  context_valid = false;
  context = λ n. 0;
  signal = 0;
  control_thread = false;
  suspend_pending = false;
  stack_event_pending = false;
  request_pipe = record { input = []; input_error = 9 };
  response_output = [];
}

pub create_thread_struct : ℕ → Cmd Debuggee (Option Thread)
create_thread_struct tid = do
  new_thr ← udi_malloc
  if new_thr == null then pure none else do
    piped ← init_control_pipe
    if piped
        then (do
          allocated ← allocate_context_data
          pure (if allocated then some (new_thread new_thr tid) else none))
        else pure none

-- At the end of the list.
link_thread : Thread → Cmd Debuggee (Unit {0})
link_thread new_thr s =
    ok tt (record s { threads = s.threads ++ (new_thr ∷ []); num_threads = s.num_threads + 1 })

link_new : Option Thread → Cmd Debuggee (Option Thread)
link_new none = pure none
link_new (some new_thr) = do link_thread new_thr; pure (some new_thr)

pub create_thread : ℕ → Cmd Debuggee (Option Thread)
create_thread tid = do new_thr ← create_thread_struct tid; link_new new_thr

unfoldable pub create_initial_thread : Cmd Debuggee (Option Thread)
create_initial_thread s = create_thread s.user_thread_id s

-- By its id; NULL is `none`.
pub find_thread : ℕ → Cmd Debuggee (Option Thread)
find_thread tid s = ok (thread_of_id tid s.threads) s

-- True is the result 0.
pub thread_death_callback : Thread → Cmd Debuggee Bool
thread_death_callback thr = do
  modify
      (λ d. record d { threads = change_thread thr.self (λ t. record t { dead = true }) d.threads })
  errnum ← close
  if errnum == 0 then pure true else do
    set_message "failed to close response handle for thread %a: %s"
        (u64 thr.id ∷ int (pos errnum) ∷ [])
    pure false

module _ (cbor : Cbor) where
  report_dead : ℕ → Option Thread → Cmd Debuggee Status
  report_dead tid none = pure error
  report_dead tid (some thr) = do
    done ← thread_death_callback thr
    if done then handle_thread_death_event cbor tid else pure error

  pub handle_thread_death : Cmd Debuggee Status
  handle_thread_death d = report_dead d.user_thread_id (thread_of_id d.user_thread_id d.threads) d
