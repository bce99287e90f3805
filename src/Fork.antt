-- ===== src/Fork.antt =====
-- The wrappers of `fork` and `execve` (libudirt/src/udirt-posix-sys.c). What `real_fork` returns is an
-- argument.
pub mod Parent
use udi.Barrier.{
  Barrier, Read, got, end_of_file, interrupted, failed, Blocked, block_failed, in_control, waited,
  sentinel, get_current_thread, block_other_threads, release_other_threads,
}
use udi.Cmd.{Cmd, ok, fault, stuck, pure, ◌>>=◌, ◌>>◌}
use udi.Filesystem.{enomem}
use udi.Format.{ℤ, pos, negsuc}
use udi.Handler.{Library, debuggee_of, on_process, on_barrier, on_signals, on_debuggee, on_current}
use udi.Machine.{null, Machine}
use udi.Msg.{Cbor}
use udi.Msg.Debuggee.{Status, success, error, failure, Thread, Debuggee, close}
use udi.Msg.Events.{handle_thread_create_event, handle_fork_event}
use udi.Msg.Files.{thread_create_callback}
use udi.Runtime.{wait_and_execute_command}
use udi.Signals.{SignalSet, full_set, setsigmask}
use udi.Start.{mask_refused}
use udi.Threads.{init_control_pipe, create_thread, handle_thread_death}
use udi.Threads.Handshake.{thread_create_handshake}
use udi.Wrappers.{execute_requests}
use udi.X86.{Instruction}
use udi.Prelude.{
  ℕ, zero, suc, ◌+◌, ◌-◌, ◌^◌, Bool, true, false, not, Option, none, some, List, [], ◌∷◌, ◌==◌,
  if◌then◌else◌, length,
}

abbrev pub minus_one : ℤ
minus_one = negsuc 0

-- A `pid_t` by its bits.
abbrev pub pid_bits : ℤ → ℕ
pid_bits (pos n) = n
pid_bits (negsuc n) = 2 ^ 32 - 1 - n

module _ (cbor : Cbor) (disassemble : Machine → ℕ → Option Instruction)
    (strerror : ℤ → List ℕ) where
  -- The loop of `fork` until the thread has control; false is a failure.
  own_control : ℕ → Cmd Library Bool
  own_control zero = λ l. stuck
  own_control (suc k) = do
    blocked ← on_barrier block_other_threads
    elim blocked [ block_failed ↦ pure false | in_control ↦ pure true | waited ↦ own_control k ]

  after_fork_requests : ℤ → Status → Cmd Library ℤ
  after_fork_requests child error = pure minus_one
  after_fork_requests child result = do on_barrier release_other_threads; pure child

  pub after_fork_event : ℤ → Status → Cmd Library ℤ
  after_fork_event child success = do
    result ← execute_requests cbor disassemble strerror
    after_fork_requests child result
  after_fork_event child status = pure minus_one

  report_fork : ℤ → Cmd Library ℤ
  report_fork child l =
      (do
        result ←
            on_debuggee
              (handle_fork_event cbor (Debuggee.user_thread_id (debuggee_of l)) (pid_bits child))
        after_fork_event child result)
        l

  -- What `fork` returns, in the process that called it; every other failure than that of `real_fork`
  -- sets `errno` to EAGAIN.
  in_parent : ℤ → Cmd Library ℤ
  in_parent child l =
      (do
        owned ← own_control (suc (length l.barrier.reads))
        if owned then report_fork child else pure minus_one)
        l

  -- `child` is what `real_fork` returns; the child itself does nothing yet.
  pub fork : ℤ → Cmd Library ℤ
  fork (pos zero) = pure (pos 0)
  fork child = in_parent child

-- `argv` and `envp` are passed on as they are.
pub execve :
    {A : Type 0}
    → (List ℕ → List (List ℕ) → List (List ℕ) → A)
    → List ℕ
    → List (List ℕ)
    → List (List ℕ)
    → A
execve real_execve filename argv envp = real_execve filename argv envp
