-- ===== src/Fork/Parent.antt =====
-- What `fork` reports in the process that called it.
use udi.Barrier.{Barrier, in_control, block_other_threads}
use udi.Cmd.{ok}
use udi.Fork.{own_control, report_fork, in_parent, after_fork_event, fork, pid_bits}
use udi.Format.{ℤ, pos, negsuc}
use udi.Handler.{Library, debuggee_of, with_debuggee, on_barrier, on_debuggee}
use udi.Machine.{Machine}
use udi.Msg.{Cbor, Item, uint16_item, uint32_item, uint64_item}
use udi.Msg.Debuggee.{success, Debuggee}
use udi.Msg.Events.{handle_fork_event, udi_event_process_fork}
use udi.Msg.Events.Reported.{reported, write_event-reported}
use udi.Msg.Write.{one_pair}
use udi.Msg.Write.Responses.{bytes_of}
use udi.X86.{Instruction}
use udi.Prelude.{ℕ, zero, suc, ◌%◌, ◌^◌, ◌≡◌, ◌≢◌, refl, Option, some, List, [], ◌++◌}

module _ (cbor : Cbor) (disassemble : Machine → ℕ → Option Instruction) (strerror : ℤ → List ℕ)
    (serializes : (item : Item) → cbor.cbor_serialize item ≢ []) where
  -- The bytes of a fork event.
  abbrev pub fork_event : ℕ → ℕ → List ℕ
  fork_event tid pid =
      cbor.cbor_serialize (uint16_item udi_event_process_fork)
      ++ (cbor.cbor_serialize (uint64_item tid)
          ++ bytes_of cbor (some (one_pair "pid" (uint32_item (pid % 2 ^ 32)))))

  report_fork-reported :
      (child : ℤ) (l : Library)
      → Debuggee.write_errors (debuggee_of l) ≡ []
      → report_fork cbor disassemble strerror child l
        ≡ after_fork_event cbor disassemble strerror child success (
            with_debuggee
              (reported
                (debuggee_of l)
                (fork_event (Debuggee.user_thread_id (debuggee_of l)) (pid_bits child)))
              l)
  unfolding report_fork on_debuggee handle_fork_event
  report_fork-reported child l w =
      rw
        (write_event-reported cbor serializes (debuggee_of l) udi_event_process_fork
          (Debuggee.user_thread_id (debuggee_of l))
          (some (one_pair "pid" (uint32_item (pid_bits child % 2 ^ 32)))) w)
        refl

  in_parent-reported :
      (child : ℤ) (l : Library) (b : Barrier)
      → block_other_threads l.barrier ≡ ok in_control b
      → b.shared.debuggee.write_errors ≡ []
      → in_parent cbor disassemble strerror child l
        ≡ after_fork_event cbor disassemble strerror child success (
            with_debuggee
              (reported b.shared.debuggee
                (fork_event b.shared.debuggee.user_thread_id (pid_bits child)))
              (record l { barrier = b }))
  unfolding in_parent own_control on_barrier
  in_parent-reported child l b e w = rw e (report_fork-reported child (record l { barrier = b }) w)

  -- With a serializer that gives bytes for every item, when the real `fork` returns in the calling process, for
  -- whatever it returned but 0, the failure -1 included, and that thread gets control at the
  -- barrier at once and the events pipe takes what is written: `fork` writes one fork event, of the calling thread and with the 32 bits of
  -- what was returned as the process number, and does nothing else before it goes on to wait for requests.
  pub fork-reported :
      (child : ℤ) (l : Library) (b : Barrier)
      → child ≢ pos 0
      → block_other_threads l.barrier ≡ ok in_control b
      → b.shared.debuggee.write_errors ≡ []
      → fork cbor disassemble strerror child l
        ≡ after_fork_event cbor disassemble strerror child success (
            with_debuggee
              (reported b.shared.debuggee
                (fork_event b.shared.debuggee.user_thread_id (pid_bits child)))
              (record l { barrier = b }))
  unfolding fork
  fork-reported (pos zero) l b ne e w = absurd (ne refl)
  fork-reported (pos (suc n)) l b ne e w = in_parent-reported (pos (suc n)) l b e w
  fork-reported (negsuc n) l b ne e w = in_parent-reported (negsuc n) l b e w
