-- ===== src/Handler.antt =====
-- The signal handler of the library, `signal_entry_impl` of libudirt/src/udirt-posix.c, whole: which
-- signals go on to the application, which are left alone, the barrier before the event and after it. It
-- composes the signal handlers, the barrier and what a thread with control does.
pub mod Passed
use udi.Barrier.{
  Barrier, Blocked, block_failed, in_control, waited, get_current_thread, threads_of, with_threads,
  block_other_threads, release_other_threads, thread_suspend_signal,
}
use udi.Cmd.{Cmd, Run, ok, fault, stuck, pure, ◌>>=◌, ◌>>◌}
use udi.Entry.{handle_signal}
use udi.Format.{ℤ}
use udi.Machine.{Ptr, null, Machine, SiCode}
use udi.Msg.{Cbor}
use udi.Msg.Debuggee.{Status, success, error, failure, Thread, Debuggee}
use udi.Msg.Thread.{change_thread}
use udi.Register.{Context}
use udi.Runtime.{Process, Select}
use udi.Signals.{SignalSet, Signals, sigpipe, app_signal_handler, uninstall_signal_handlers}
use udi.X86.{Instruction}
use udi.Prelude.{
  ℕ, Bool, true, false, not, ◌&&◌, ◌||◌, Option, none, some, List, [], ◌∷◌, ◌==◌, if◌then◌else◌,
}

-- The state of the whole; the one of the request handlers is what the threads share.
pub record Library : Type 0 where
  pub barrier : Barrier
  pub selects : List Select
  pub signals : Signals
  pub udi_enabled : Bool

abbrev pub debuggee_of : Library → Debuggee
debuggee_of l = l.barrier.shared.debuggee

abbrev pub with_debuggee : Debuggee → Library → Library
with_debuggee d l = record l {
  barrier = record l.barrier { shared = record l.barrier.shared { debuggee = d } };
}

abbrev pub on_process_run : {A : Type 0} → Library → Run Process A → Run Library A
on_process_run l (ok a p) = ok a (record (with_debuggee p.debuggee l) { selects = p.selects })
on_process_run l fault = fault
on_process_run l stuck = stuck

unfoldable pub on_process : {A : Type 0} → Cmd Process A → Cmd Library A
on_process f l = on_process_run l (f (record { debuggee = debuggee_of l; selects = l.selects }))

abbrev pub on_debuggee_run : {A : Type 0} → Library → Run Debuggee A → Run Library A
on_debuggee_run l (ok a d) = ok a (with_debuggee d l)
on_debuggee_run l fault = fault
on_debuggee_run l stuck = stuck

-- What a thread does that needs neither the barrier nor a request.
unfoldable pub on_debuggee : {A : Type 0} → Cmd Debuggee A → Cmd Library A
on_debuggee f l = on_debuggee_run l (f (debuggee_of l))

abbrev pub on_barrier_run : {A : Type 0} → Library → Run Barrier A → Run Library A
on_barrier_run l (ok a b) = ok a (record l { barrier = b })
on_barrier_run l fault = fault
on_barrier_run l stuck = stuck

unfoldable pub on_barrier : {A : Type 0} → Cmd Barrier A → Cmd Library A
on_barrier f l = on_barrier_run l (f l.barrier)

abbrev pub on_signals_run : {A : Type 0} → Library → Run Signals A → Run Library A
on_signals_run l (ok a s) = ok a (record l { signals = s })
on_signals_run l fault = fault
on_signals_run l stuck = stuck

-- The flag of a broken pipe is the one of the request handlers.
unfoldable pub on_signals : {A : Type 0} → Cmd Signals A → Cmd Library A
on_signals f l =
    on_signals_run l
      (f (record l.signals { pipe_write_failure = Debuggee.pipe_write_failure (debuggee_of l) }))

-- A failure to uninstall is only logged.
pub disable_debugging : Cmd Library (Unit {0})
disable_debugging l =
    (do _ ← on_signals uninstall_signal_handlers; pure tt) (record l { udi_enabled = false })

pub is_performing_mem_access : Library → Bool
is_performing_mem_access l = Machine.performing_mem_access (Debuggee.machine (debuggee_of l))

pub single_thread_executing : Library → Bool
single_thread_executing l =
    is_performing_mem_access l || not (Debuggee.continue_bp (debuggee_of l) == null)

abbrev set_current : Ptr → (Thread → Thread) → Library → Library
set_current thr f l = record l {
  barrier = with_threads (change_thread thr f (threads_of l.barrier)) l.barrier;
}

pub on_current : Option Thread → (Thread → Thread) → Cmd Library (Unit {0})
on_current none f l = ok tt l
on_current (some thr) f l = ok tt (set_current thr.self f l)

abbrev self_of : Option Thread → Ptr
self_of none = null
self_of (some thr) = thr.self

pass_to_application : SignalSet → ℕ → Cmd Library (Unit {0})
pass_to_application unset signal = on_signals (app_signal_handler unset signal)

abbrev save_event : ℕ → Context → Thread → Thread
save_event signal context t = record t { signal = signal; context = context; context_valid = true }

abbrev invalidate : Thread → Thread
invalidate t = record t { context_valid = false }

-- `thr == NULL || thr->suspend_pending == 1`
is_extraneous : Option Thread → Bool
is_extraneous none = true
is_extraneous (some thr) = thr.suspend_pending

module _ (cbor : Cbor) (disassemble : Machine → ℕ → Option Instruction) (strerror : ℤ → List ℕ)
    (abort_label : ℕ) (unset : SignalSet) where
  release_on_success : Status → Cmd Library (Unit {0})
  release_on_success success l =
      if single_thread_executing l then ok tt l else on_barrier release_other_threads l
  release_on_success result l = ok tt l

  -- The event is handled, and the context is the one to return to.
  with_control : ℕ → SiCode → Option Thread → Context → Cmd Library Context
  with_control signal code thr context = do
    on_current thr (λ t. record t { signal = 0 })
    (result, context') ←
        on_process
          (handle_signal cbor disassemble strerror abort_label signal code (self_of thr) context)
    release_on_success result
    on_current thr invalidate
    pure context'

  after_block : ℕ → SiCode → Option Thread → Context → Blocked → Cmd Library Context
  after_block signal code thr context block_failed = λ l. fault
  after_block signal code thr context waited = do on_current thr invalidate; pure context
  after_block signal code thr context in_control = with_control signal code thr context

  -- The other threads are stopped first; a thread without a structure is dereferenced.
  take_turn : ℕ → SiCode → Option Thread → Context → Cmd Library Context
  take_turn signal code none context = λ l. fault
  take_turn signal code (some thr) context = do
    on_current (some thr) (save_event signal context)
    blocked ← on_barrier block_other_threads
    after_block signal code (some thr) context blocked

  alone : ℕ → SiCode → Option Thread → Context → Cmd Library Context
  alone signal code thr context l =
      if Debuggee.continue_bp (debuggee_of l) == null
      then with_control signal code thr context l
      else (do
        on_current thr (λ t. record t { context = context; context_valid = true })
        with_control signal code thr context)
          l

  handle : ℕ → SiCode → Option Thread → Context → Cmd Library Context
  handle signal code thr context l =
      if (signal == thread_suspend_signal) && is_extraneous thr
      then (do on_current thr (λ t. record t { suspend_pending = false }); pure context) l
      else if single_thread_executing l
      then alone signal code thr context l
      else take_turn signal code thr context l

  -- `unset` is what a set of signals holds that was not set. The context is the one to return to.
  pub signal_entry : ℕ → SiCode → Context → Cmd Library Context
  signal_entry signal code context l =
      if Debuggee.pipe_write_failure (debuggee_of l) && (signal == sigpipe)
      then (do pass_to_application unset signal; pure context)
          (with_debuggee (record (debuggee_of l) { pipe_write_failure = false }) l)
      else if not (Debuggee.pass_signal (debuggee_of l) == 0)
      then (do
        pass_to_application unset signal
        λ l'. ok context (with_debuggee (record (debuggee_of l') { pass_signal = 0 }) l'))
          l
      else if not l.udi_enabled && not (is_performing_mem_access l)
      then ok context l
      else handle signal code (get_current_thread l.barrier) context l
