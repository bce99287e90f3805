-- ===== src/Start.antt =====
-- The start of the library in a process (libudirt/src/udirt-posix.c, with the lookups of
-- udirt-posix-sys.c and udirt-posix-pthreads.c): `init_udirt` and what it composes.
pub mod Enabled
use udi.Cmd.{Cmd, ok, fault, pure, ◌>>=◌, ◌>>◌}
use udi.Entry.{install_event_breakpoints}
use udi.Filesystem.{create_udi_filesystem}
use udi.Format.{ℤ, int, text, pos}
use udi.Handler.{Library, debuggee_of, on_process, on_signals, on_debuggee}
use udi.Machine.{Ptr, null, Machine}
use udi.Msg.{Cbor}
use udi.Msg.Debuggee.{Status, success, error, Debuggee, set_message}
use udi.Runtime.{wait_and_execute_command}
use udi.Signals.{SignalSet, Action, full_set, setsigmask, setup_signal_handlers}
use udi.Threads.Handshake.{both_handshakes}
use udi.X86.{Instruction}
use udi.Prelude.{
  ℕ, Bool, true, false, not, ◌&&◌, Option, none, some, List, [], ◌∷◌, ◌==◌, if◌then◌else◌,
}

-- What the process was started with, and what the loader and the threads library answer.
pub record Environment : Type 0 where
  -- `testing_udirt != NULL`
  pub testing : Bool
  pub root_dir : Option (List ℕ)
  pub pid : ℕ
  -- whether the threads library has mutexes, and the outcomes of its three calls
  pub has_mutexes : Bool
  pub mutex_errors : List ℕ
  -- what `dlerror` returns after each `dlsym`
  pub symbol_errors : List (Option (List ℕ))
  pub thread_symbol_errors : List (Option (List ℕ))
  -- the address of `exit`, and of `signal_entry_point`
  pub exit : ℕ
  pub signal_entry_point : Ptr

abbrev first : List ℕ → ℕ
first [] = 0
first (n ∷ ns) = n

all_zero : List ℕ → Bool
all_zero [] = true
all_zero (n ∷ ns) = (n == 0) && all_zero ns

pub init_thread_support : Environment → Cmd Library (Unit {0})
init_thread_support env l =
    if env.has_mutexes && not (all_zero env.mutex_errors) then fault else ok tt l

-- The lookups of symbols, one after another, up to one with an error. True is the result 0.
find_symbols : List (Option (List ℕ)) → Cmd Library Bool
find_symbols [] = pure true
find_symbols (none ∷ later) = find_symbols later
find_symbols (some message ∷ later) = do
  on_debuggee (set_message "%s" (text message ∷ []))
  pure false

pub locate_wrapper_functions : Environment → Cmd Library Bool
locate_wrapper_functions env = find_symbols env.symbol_errors

pub locate_thread_wrapper_functions : Environment → Cmd Library Bool
locate_thread_wrapper_functions env = find_symbols env.thread_symbol_errors

abbrev set_sync_var : ℕ → Library → Library
set_sync_var n l = record l {
  barrier = record l.barrier { shared = record l.barrier.shared { sync_var = n } };
}

-- The pipe of the barrier.
sync_pipe : Cmd Debuggee Bool
sync_pipe d =
    if d.multithread_capable
    then ok (first d.pipes == 0) (record d { pipes = elim d.pipes [ [] ↦ [] | n ∷ ns ↦ ns ] })
    else ok true d

pub initialize_thread_sync : Cmd Library Bool
initialize_thread_sync l = on_debuggee sync_pipe (set_sync_var 0 l)

-- A step whose failure ends the start as an error.
abbrev then_start : Cmd Library Bool → Cmd Library Status → Cmd Library Status
then_start step next = do done ← step; if done then next else pure error

-- A failure without a message of its own.
abbrev with_message : Cmd Library Bool → Cmd Library (Unit {0}) → Cmd Library Bool
with_message step message = do done ← step; if done then pure true else (do message; pure false)

-- `setsigmask(...) == -1`, for a result that is not 0: `pthread_sigmask` returns an error number, which
-- is not -1, and only `sigprocmask` returns -1.
pub mask_refused : ℕ → Library → Bool
mask_refused errnum l = not (errnum == 0) && not (Debuggee.multithread_capable (debuggee_of l))

pub enable : Status → Library → Library
enable success l = record l { udi_enabled = true }
enable status l = l

end_of_start : Status → Cmd Library (Unit {0})
end_of_start success = pure tt
end_of_start status = λ l. fault

module _ (cbor : Cbor) (disassemble : Machine → ℕ → Option Instruction) (strerror : ℤ → List ℕ)
    (unset : SignalSet) (indeterminate : Action) where
  pub handshake_with_debugger : Cmd Library Status
  handshake_with_debugger = do
    result ← on_debuggee (both_handshakes cbor strerror)
    λ l. ok result (enable result l)

  setup_handlers : Environment → Cmd Library Bool
  setup_handlers env = do
    signal_result ← on_signals (setup_signal_handlers env.signal_entry_point indeterminate)
    if signal_result == 0 then pure true else do
      on_debuggee (set_message "failed to setup signal handlers: %e" (int (pos signal_result) ∷ []))
      pure false

  make_filesystem : Environment → Cmd Library Bool
  make_filesystem env = do
    errnum ← on_debuggee (create_udi_filesystem env.root_dir env.pid)
    if errnum == 0
        then pure true
        else do on_debuggee (set_message "failed to create udi filesystem" []); pure false

  initial_command : Status → Cmd Library Status
  initial_command success = do
    (result, _) ← on_process (wait_and_execute_command cbor disassemble strerror null)
    pure result
  initial_command status = pure status

  -- The steps of `init_udirt` once the signals are blocked.
  pub start_steps : Environment → Cmd Library Status
  start_steps env = then_start (locate_wrapper_functions env) (
      then_start (locate_thread_wrapper_functions env) (
        then_start
          (with_message initialize_thread_sync
            (on_debuggee (set_message "failed to initialize thread sync" [])))
          (then_start (setup_handlers env) (
            then_start (on_debuggee (install_event_breakpoints env.exit)) (
              then_start (make_filesystem env)
                (do result ← handshake_with_debugger; initial_command result))))))

  block_all : Cmd Library (ℕ × SignalSet)
  block_all = on_signals (setsigmask full_set)

  start_blocked : Environment → ℕ × SignalSet → Cmd Library (Unit {0})
  start_blocked env (errnum, original_set) l =
      if mask_refused errnum l
      then fault
      else (do
        result ← start_steps env
        end_of_start result
        _ ← on_signals (setsigmask (if errnum == 0 then original_set else unset))
        pure tt)
          l

  -- A start that fails aborts.
  pub init_udirt : Environment → Cmd Library (Unit {0})
  init_udirt env =
      if env.testing
      then pure tt
      else do init_thread_support env; blocked ← block_all; start_blocked env blocked
