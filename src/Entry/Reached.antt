-- ===== src/Entry/Reached.antt =====
-- From the trap of a breakpoint of the debugger to the wait for its requests.
use udi.Breakpoint.{breakpoint_hash, create_breakpoint}
use udi.Breakpoint.Chain.{Cells, Holds, find_in}
use udi.Breakpoint.Find.{find_breakpoint-Holds}
use udi.Breakpoint.Install.{IsCalm, poked}
use udi.Cmd.{ok, pure, ◌>>=◌}
use udi.Entry.{
  sigtrap, get_trap_address, decode_trap, decode_event, single_step, report_error, await_requests,
  handle_signal,
}
use udi.Format.{ℤ}
use udi.Machine.{Ptr, null, Breakpoint, Machine, SiCode}
use udi.Msg.{Cbor, Item}
use udi.Msg.Debuggee.{Thread}
use udi.Msg.Events.Reported.{reported}
use udi.Msg.Hit.Decoded.{stopped, hit, rewound, rewound_at, is_stepping-lem, decode_breakpoint-user}
use udi.Msg.Thread.{find_thread}
use udi.Register.{Context, rewind_pc}
use udi.Runtime.{Process}
use udi.X86.{Instruction, get_ctf_successor}
use udi.Prelude.{ℕ, ◌≡◌, ◌≢◌, refl, true, false, Option, some, List, [], ==_ne}

-- A thread that does not single-step gets a SIGTRAP behind the address of a breakpoint of the table that
-- is in memory, at a mapped byte, that is bound to no thread and is neither the exit breakpoint nor
-- the one of the continue; memory is accessible, the successor of the instruction is found, a structure
-- for it is got, the serializer gives bytes for every item, and the events pipe takes what is written.
-- Then the trap leaves the original byte in memory and a breakpoint for the continue at the successor,
-- reports exactly the event of the breakpoint with the id of the thread and the address, and goes on
-- with waiting for requests in that state; the context that it returns to is at the breakpoint,
-- whatever the requests do.
pub handle_signal-breakpoint :
    (cbor : Cbor) (disassemble : Machine → ℕ → Option Instruction) (strerror : ℤ → List ℕ)
    (abort_label : ℕ) (code : SiCode) (p : Process) (thr bp : Ptr) (t : Thread) (b : Breakpoint)
    (v : ℕ) (view : ℕ → Cells) (context : Context) (successor : ℕ) (new : Ptr) (b' : Breakpoint)
    (m' m'' : Machine)
    → thr ≢ null
    → find_thread thr p.debuggee.threads ≡ some t
    → t.single_step_bp ≢ bp
    → t.single_step ≡ false
    → IsCalm p.debuggee.machine
    → Holds p.debuggee.machine view
    → find_in (get_trap_address context) (view (breakpoint_hash (get_trap_address context))) ≡ bp
    → bp ≢ null
    → p.debuggee.machine.nodes bp ≡ some b
    → b.in_memory ≡ true
    → p.debuggee.machine.mem b.address ≡ some v
    → ((item : Item) → cbor.cbor_serialize item ≢ [])
    → p.debuggee.write_errors ≡ []
    → bp ≢ p.debuggee.exit_bp
    → p.debuggee.continue_bp ≢ bp
    → get_ctf_successor disassemble b.address
        (rewind_pc context)
        (poked p.debuggee.machine b.address b.saved_byte)
      ≡ ok successor m'
    → successor ≢ 0
    → create_breakpoint successor m' ≡ ok new m''
    → new ≢ null
    → m''.nodes bp ≡ some b'
    → b'.thread ≡ null
    → handle_signal cbor disassemble strerror abort_label sigtrap code thr context p
      ≡ (do
        waited ← await_requests cbor disassemble strerror abort_label true
        pure (waited, rewind_pc context))
          (record p {
            debuggee =
                reported
                  (record (stopped p.debuggee thr) {
                    machine = m'';
                    continue_bp = new;
                    last_bp_address = b'.address;
                  })
                  (hit cbor t.id b'.address);
          })
unfolding handle_signal decode_event decode_trap single_step report_error
handle_signal-breakpoint cbor disassemble strerror abort_label code p thr bp t b v view context
      successor new b' m' m'' nt at no_step steady calm holds found ne node present byte ser w other
      fresh next nz create nn node' free =
    let d' =
      reported
        (record (stopped p.debuggee thr) {
          machine = m'';
          continue_bp = new;
          last_bp_address = b'.address;
        })
        (hit cbor t.id b'.address) in
    rw
      (
        find_breakpoint-Holds p.debuggee.machine view (get_trap_address context) holds,
        found,
        ==_ne bp 0 ne,
        decode_breakpoint-user cbor disassemble p.debuggee thr bp t b v nt at no_step calm ne node
            present byte context true successor new b' m' m'' ser w other fresh next nz create nn
            node' free,
        is_stepping-lem d' thr (rewound t) nt (rewound_at p.debuggee thr t nt at),
        steady,
      )
      refl
