-- ===== src/Wrappers/Stopped.antt =====
-- What a `pthread_create` that fails leaves behind.
use udi.Barrier.{Read, threads_of, get_current_thread}
use udi.Barrier.Answers.{Answer, answers}
use udi.Barrier.Round.{running_others, after_answers, block_other_threads-lem}
use udi.Cmd.{ok}
use udi.Format.{ℤ}
use udi.Handler.{Library, debuggee_of, with_debuggee, on_barrier, on_debuggee}
use udi.Machine.{Machine}
use udi.Msg.{Cbor}
use udi.Msg.Debuggee.{Thread, Debuggee, close}
use udi.Msg.Thread.{find_thread}
use udi.Signals.{SignalSet}
use udi.Threads.Linked.{init_control_pipe-lem}
use udi.Wrappers.{
  pthread_create, create_blocked, create_context, after_create, close_pipe, context_size,
}
use udi.X86.{Instruction}
use udi.Prelude.{
  ℕ, ◌≡◌, ◌≢◌, refl, ◌∙◌, true, Option, some, List, [], ◌++◌, ltb, ==_ne, if_true, length,
}

module _ (cbor : Cbor) (disassemble : Machine → ℕ → Option Instruction) (strerror : ℤ → List ℕ)
    (unset : SignalSet) where
  abbrev closed : Library → Library
  closed l = with_debuggee (record (debuggee_of l) { closes = [] }) l

  close_pipe-lem :
      (l : Library)
      → Debuggee.multithread_capable (debuggee_of l) ≡ true
      → Debuggee.closes (debuggee_of l) ≡ []
      → close_pipe cbor disassemble strerror unset l ≡ ok tt (closed l)
  unfolding close_pipe on_debuggee close
  close_pipe-lem l capable closes = if_true _ _ _ capable ∙ rw closes refl

  after_create-refused :
      (errnum : ℕ) (l : Library)
      → errnum ≢ 0
      → Debuggee.multithread_capable (debuggee_of l) ≡ true
      → Debuggee.closes (debuggee_of l) ≡ []
      → after_create cbor disassemble strerror unset errnum l ≡ ok errnum (closed l)
  unfolding after_create
  after_create-refused errnum l ne capable closes =
      rw (==_ne errnum 0 ne) (rw (close_pipe-lem l capable closes) refl)

  piped : Library → Library
  piped l = with_debuggee (record (debuggee_of l) { pipes = [] }) l

  create_context-refused :
      (errnum : ℕ) (l : Library)
      → errnum ≢ 0
      → ((n : ℕ) → (debuggee_of l).files.can_allocate n ≡ true)
      → Debuggee.multithread_capable (debuggee_of l) ≡ true
      → Debuggee.pipes (debuggee_of l) ≡ []
      → Debuggee.closes (debuggee_of l) ≡ []
      → create_context cbor disassemble strerror unset errnum l ≡ ok errnum (closed (piped l))
  unfolding create_context on_debuggee piped
  create_context-refused errnum l ne granted capable pipes closes =
      if_true _ _ _ (granted context_size)
      ∙ rw (init_control_pipe-lem (debuggee_of l) pipes)
          (after_create-refused errnum (piped l) ne capable closes)

  -- In a process with several threads, where the calling thread is the first at the barrier, memory and a
  -- pipe can be had, and as many sentinels come as other threads run, each with the suspend signal and a
  -- context stored in the thread that answers: if the real `pthread_create` fails, its error is returned,
  -- with the other threads still stopped: exactly the other running threads were sent the suspend
  -- signal, none of them was released, and the barrier is still taken.
  pub pthread_create-refused :
      (errnum : ℕ) (l : Library) (t : Thread) (rs : List Answer) (later : List Read)
      → errnum ≢ 0
      → Debuggee.multithread_capable (debuggee_of l) ≡ true
      → ltb 1 (Debuggee.num_threads (debuggee_of l)) ≡ true
      → get_current_thread l.barrier ≡ some t
      → find_thread t.self (threads_of l.barrier) ≡ some t
      → l.barrier.shared.sync_var ≡ 0
      → l.barrier.kills ≡ []
      → length rs ≡ length (running_others t.self (threads_of l.barrier))
      → l.barrier.reads ≡ answers rs ++ later
      → ((n : ℕ) → (debuggee_of l).files.can_allocate n ≡ true)
      → Debuggee.pipes (debuggee_of l) ≡ []
      → Debuggee.closes (debuggee_of l) ≡ []
      → (l' : Library) × (pthread_create cbor disassemble strerror unset errnum l ≡ ok errnum l')
        × (l'.barrier.signalled
            ≡ l.barrier.signalled ++ running_others t.self (threads_of l.barrier))
        × (l'.barrier.released ≡ l.barrier.released)
        × (l'.barrier.shared.sync_var ≡ 1)
  unfolding pthread_create create_blocked on_barrier piped
  pthread_create-refused errnum l t rs later ne capable many current there free kills count reads
        granted pipes closes =
      let l1 : Library = record l { barrier = after_answers l.barrier t.self rs later } in
      (
        closed (piped l1),
        rw
            (block_other_threads-lem l.barrier t rs later (rw (capable, many) refl) current there
              free kills count reads)
            (create_context-refused errnum l1 ne granted capable pipes closes),
        refl,
        refl,
        refl,
      )
