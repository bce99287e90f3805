-- ===== src/Wrappers.antt =====
-- The wrappers of functions of the C library around which events are reported: `pthread_create`,
-- `pthread_exit` and what a new thread runs (libudirt/src/udirt-posix-pthreads.c). What the wrapped function returns is an argument. The process is seen by the
-- thread that runs the wrapper; what others do comes with what it reads.
pub mod Stopped
pub mod Introduced
use udi.Barrier.{
  Barrier, Read, got, end_of_file, interrupted, failed, Blocked, block_failed, in_control, waited,
  sentinel, get_current_thread, block_other_threads, release_other_threads,
}
use udi.Cmd.{Cmd, ok, fault, stuck, pure, ◌>>=◌, ◌>>◌}
use udi.Filesystem.{enomem}
use udi.Format.{ℤ, pos, negsuc}
use udi.Handler.{Library, debuggee_of, on_process, on_barrier, on_signals, on_debuggee, on_current}
use udi.Machine.{null, Machine}
use udi.Msg.{Cbor}
use udi.Msg.Debuggee.{Status, success, error, failure, Thread, Debuggee, close}
use udi.Msg.Events.{handle_thread_create_event, handle_fork_event}
use udi.Msg.Files.{thread_create_callback}
use udi.Runtime.{wait_and_execute_command}
use udi.Signals.{SignalSet, full_set, setsigmask}
use udi.Start.{mask_refused}
use udi.Threads.{init_control_pipe, create_thread, handle_thread_death}
use udi.Threads.Handshake.{thread_create_handshake}
use udi.X86.{Instruction}
use udi.Prelude.{
  ℕ, zero, suc, ◌+◌, ◌-◌, ◌^◌, Bool, true, false, not, Option, none, some, List, [], ◌∷◌, ◌==◌,
  if◌then◌else◌, length,
}

-- The rest of a function that ends unless the result is `RESULT_SUCCESS`.
abbrev and_success : Status → Cmd Library Status → Cmd Library Status
and_success success next = next
and_success status next = pure status

-- The result of a request loop, of which an error aborts.
abort_on_error : Status → Cmd Library Status
abort_on_error error = λ l. fault
abort_on_error result = pure result

abort_unless : Status → Cmd Library (Unit {0})
abort_unless success = pure tt
abort_unless result = λ l. fault

abbrev first : List ℕ → ℕ
first [] = 0
first (n ∷ ns) = n

-- A sentinel to the barrier; false is a failure.
try_trigger : Cmd Barrier Bool
try_trigger b =
    let done = first b.writes == 0 in
    ok done (record b {
      writes = elim b.writes [ [] ↦ [] | n ∷ ns ↦ ns ];
      triggers = if done then b.triggers + 1 else b.triggers;
    })

-- The loop of a new thread until it is given control. The end of the file leaves `trigger` at 0.
control_loop : List Read → Cmd Barrier Status
control_loop [] b = stuck
control_loop (interrupted ∷ later) b = control_loop later b
control_loop (end_of_file ∷ later) b = control_loop later b
control_loop (failed ∷ later) b = ok error (record b { reads = later })
control_loop (got trigger meanwhile ∷ later) b =
    let b' : Barrier = record b { shared = meanwhile b.shared; reads = later } in
    let rest = control_loop later b' in
    if trigger == 0 then rest else if trigger == sentinel then ok success b' else fault

await_control : Cmd Barrier Status
await_control b = control_loop b.reads b

-- One `read` from the barrier.
read_barrier_in : List Read → Cmd Barrier Status
read_barrier_in [] b = stuck
read_barrier_in (got trigger meanwhile ∷ later) b =
    if trigger == sentinel
    then ok success (record b { shared = meanwhile b.shared; reads = later })
    else fault
read_barrier_in (_ ∷ later) b = ok error (record b { reads = later })

read_barrier : Cmd Barrier Status
read_barrier b = read_barrier_in b.reads b

-- The size of `struct wrapped_thread_context`.
abbrev context_size : ℕ
context_size = 24

module _ (cbor : Cbor) (disassemble : Machine → ℕ → Option Instruction)
    (strerror : ℤ → List ℕ) where
  pub execute_requests : Cmd Library Status
  execute_requests = do
    (result, _) ← on_process (wait_and_execute_command cbor disassemble strerror null)
    pure result

module _ (cbor : Cbor) (disassemble : Machine → ℕ → Option Instruction) (strerror : ℤ → List ℕ)
    (unset : SignalSet) where
  give_control : Bool → Cmd Library Status
  give_control true = on_barrier await_control
  give_control false = pure error

  introduce : ℕ → ℕ → Option Thread → Cmd Library Status
  introduce creator_thr tid none = pure error
  introduce creator_thr tid (some thr) = do
    done ← on_debuggee (thread_create_callback thr)
    if not done then pure error else do
      result ← on_debuggee (handle_thread_create_event cbor creator_thr tid)
      and_success result (do
        result' ← on_debuggee (thread_create_handshake cbor strerror thr)
        and_success result' (do written ← on_barrier try_trigger; give_control written))

  -- In the new thread.
  pub handle_thread_create : ℕ → Cmd Library Status
  handle_thread_create creator_thr l =
      (do
        thr ← on_debuggee (create_thread (Debuggee.user_thread_id (debuggee_of l)))
        introduce creator_thr (Debuggee.user_thread_id (debuggee_of l)) thr)
        l

  die : Thread → Blocked → Cmd Library (Unit {0})
  die thr in_control = do
    on_current (some thr) (λ t. record t { stack_event_pending = false })
    death_result ← on_debuggee (handle_thread_death cbor)
    abort_unless death_result
    request_result ← execute_requests cbor disassemble strerror
    _ ← abort_on_error request_result
    on_barrier release_other_threads
  die thr blocked = λ l. fault

  die_blocked : Option Thread → Cmd Library (Unit {0})
  die_blocked none = λ l. fault
  die_blocked (some thr) = do
    on_current (some thr) (λ t. record t { stack_event_pending = true })
    blocked ← on_barrier block_other_threads
    die thr blocked

  die_masked : ℕ × SignalSet → Cmd Library (Unit {0})
  die_masked (errnum, original_set) l =
      if mask_refused errnum l
      then fault
      else (do
        die_blocked (get_current_thread l.barrier)
        _ ← on_signals (setsigmask (if errnum == 0 then original_set else unset))
        pure tt)
          l

  pub report_thread_death : Cmd Library (Unit {0})
  report_thread_death = do masked ← on_signals (setsigmask full_set); die_masked masked

  -- `real_pthread_exit` is what follows.
  pub pthread_exit : Cmd Library (Unit {0})
  pthread_exit = report_thread_death

  -- `start_routine` is what the application does in the thread.
  pub wrapped_start_routine : ℕ → Cmd Library (Unit {0}) → Cmd Library (Unit {0})
  wrapped_start_routine creator_tid start_routine = do
    create_result ← handle_thread_create creator_tid
    abort_unless create_result
    start_routine
    report_thread_death

  pub handshake_with_thread : Cmd Library Status
  handshake_with_thread = do
    triggered ← on_barrier read_barrier
    and_success triggered (do
      result ← execute_requests cbor disassemble strerror
      executed ← abort_on_error result
      on_barrier release_other_threads
      pure executed)

  -- What `pthread_create` returns once `real_pthread_create` has.
  abbrev created_errnum : Status → ℕ
  created_errnum success = 0
  created_errnum status = enomem

  pub close_pipe : Cmd Library (Unit {0})
  close_pipe l =
      if Debuggee.multithread_capable (debuggee_of l)
      then on_debuggee (do _ ← close; _ ← close; pure tt) l
      else ok tt l

  unfoldable pub after_create : ℕ → Cmd Library ℕ
  after_create create_result =
      if create_result == 0
      then (do result ← handshake_with_thread; pure (created_errnum result))
      else (do close_pipe; pure create_result)

  -- The context is written without a test for NULL.
  create_context : ℕ → Cmd Library ℕ
  create_context create_result l =
      if (debuggee_of l).files.can_allocate context_size
      then (do
        piped ← on_debuggee init_control_pipe
        if piped then after_create create_result else pure enomem)
          l
      else fault

  create_blocked : ℕ → Blocked → Cmd Library ℕ
  create_blocked create_result block_failed = λ l. fault
  create_blocked create_result blocked = create_context create_result

  -- The error number.
  pub pthread_create : ℕ → Cmd Library ℕ
  pthread_create create_result = do
    blocked ← on_barrier block_other_threads
    create_blocked create_result blocked
