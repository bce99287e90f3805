-- ===== src/Tests/Loops.antt =====
-- The theorems on the barrier and on the event loop at concrete inputs.
use mathlib.Core.Option
use udi.Barrier.{
  Barrier, in_control, threads_of, thread_of_id, find_pending, event_pending, block_other_threads,
  release_other_threads,
}
use udi.Barrier.Answers.{Answer, answers}
use udi.Barrier.Complete.{release_other_threads-block_other_threads}
use udi.Barrier.Round.{running_others, control_flag, is_listed}
use udi.Cmd.{ok}
use udi.Format.{ℤ}
use udi.Machine.{Machine, Ptr}
use udi.Msg.Thread.{find_thread}
use udi.Runtime.{Process, interrupted, ready, failed, wait_and_execute_command}
use udi.Runtime.Wait.{Serves, wait_and_execute_command-Serves}
use udi.Tests.Samples.{machine, cbor, debuggee, thread}
use udi.X86.{Instruction}
use udi.Prelude.{
  ℕ, ◌≡◌, refl, true, false, Option, none, some, List, [], ◌∷◌, ◌++◌, ◌==◌, if◌then◌else◌,
}

-- Two threads answer, the last of the list first.
abbrev pub replies : List Answer
replies =
    record { thread = 60; context = λ n. n; suspend_pending = false }
    ∷ record { thread = 50; context = λ n. 7; suspend_pending = true }
    ∷ []

-- Three threads, of which the first comes to the barrier.
abbrev pub arriving : Barrier
arriving = record {
  shared = record {
    debuggee = record (debuggee machine []) {
      threads = thread 40 ∷ thread 50 ∷ thread 60 ∷ [];
      num_threads = 3;
      multithread_capable = true;
    };
    sync_var = 0;
  };
  kills = [];
  writes = [];
  reads = answers replies;
  signalled = [];
  released = [];
  triggers = 0;
}

release_other_threads-block_other_threads_example :
    (b' b'' : Barrier) × (block_other_threads arriving ≡ ok in_control b')
    × (b'.shared.sync_var ≡ 1)
    × ((q : Ptr)
        → is_listed q (threads_of arriving) ≡ true
        → control_flag (find_thread q (threads_of b')) ≡ (
            if q == 40
            then some true
            else Option.map (λ u. false) (find_thread q (threads_of arriving))))
    × (release_other_threads b' ≡ ok tt b'')
    × (b''.signalled ≡ [] ++ running_others 40 (threads_of arriving))
    × (b''.released ≡ [] ++ running_others 40 (threads_of arriving))
    × (b''.shared ≡ record {
      debuggee = record arriving.shared.debuggee { threads = threads_of b' };
      sync_var = 0;
    })
    × (b''.reads ≡ [])
unfolding thread_of_id find_thread running_others find_pending event_pending
release_other_threads-block_other_threads_example =
    release_other_threads-block_other_threads arriving (thread 40) replies [] refl refl refl refl
      refl refl refl refl refl refl refl

abbrev no_strerror : ℤ → List ℕ
no_strerror e = []

abbrev no_instruction : Machine → ℕ → Option Instruction
no_instruction m pc = none

-- A request of the process, and a failure after it.
abbrev waiting : Process
waiting = record {
  debuggee = debuggee machine (7 ∷ []);
  selects = interrupted ∷ ready true [] ∷ failed ∷ [];
}

wait_and_execute_command-Serves_example :
    Serves cbor no_instruction no_strerror 0 waiting
      (wait_and_execute_command cbor no_instruction no_strerror 0 waiting)
wait_and_execute_command-Serves_example =
    wait_and_execute_command-Serves cbor no_instruction no_strerror 0 waiting
