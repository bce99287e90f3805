-- ===== src/Tests/Threads.antt =====
-- The theorem on suspending and resuming threads at a concrete input.
use mathlib.Core.Option
use udi.Cmd.{ok}
use udi.Machine.{Machine, Ptr}
use udi.Msg.Debuggee.{success, Debuggee}
use udi.Msg.Thread.{find_thread, change_thread, thr_suspend_handler, thr_resume_handler}
use udi.Msg.Thread.Suspend.{suspend, resume, answered, suspend-resume}
use udi.Msg.Write.{udi_req_thread_suspend, udi_req_thread_resume}
use udi.Tests.Samples.{machine, cbor, cbor-serializes, debuggee, thread}
use udi.X86.{Instruction}
use udi.Prelude.{ℕ, ◌≡◌, refl, Option, none, [], ◌∷◌, ◌==◌, if◌then◌else◌}

abbrev with_threads : Debuggee
with_threads = record (debuggee machine []) {
  threads = thread 40 ∷ thread 50 ∷ [];
  num_threads = 2;
}

abbrev no_instruction : Machine → ℕ → Option Instruction
no_instruction m pc = none

suspend-resume_example :
    (thr_suspend_handler cbor no_instruction 50 with_threads
      ≡ ok success (answered cbor with_threads 50 suspend udi_req_thread_suspend))
    × (thr_resume_handler cbor no_instruction 50 with_threads
        ≡ ok success (answered cbor with_threads 50 resume udi_req_thread_resume))
    × ((other : Ptr)
        → (find_thread other (change_thread 50 suspend with_threads.threads) ≡ (
            if 50 == other
            then Option.map suspend (find_thread other with_threads.threads)
            else find_thread other with_threads.threads))
          × (find_thread other (change_thread 50 resume with_threads.threads) ≡ (
              if 50 == other
              then Option.map resume (find_thread other with_threads.threads)
              else find_thread other with_threads.threads)))
unfolding find_thread
suspend-resume_example =
    suspend-resume cbor no_instruction with_threads 50 (thread 50) cbor-serializes refl refl
