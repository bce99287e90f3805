-- ===== src/Msg/Hit/Decoded.antt =====
-- What happens when a thread runs into a breakpoint of the debugger, and into the breakpoint behind
-- it once it is continued.
use udi.Breakpoint.{breakpoint_hash, breakpoint_insn, create_breakpoint, delete_breakpoint}
use udi.Breakpoint.Chain.{load_lem, Cells, Holds, find_in}
use udi.Breakpoint.Find.{find_breakpoint-Holds}
use udi.Breakpoint.Install.{IsCalm, remove_breakpoint_for_continue-lem, poked}
use udi.Cmd.{ok}
use udi.Machine.{Ptr, null, Breakpoint, Machine}
use udi.Msg.{Cbor, Item, uint16_item, uint64_item}
use udi.Msg.Debuggee.{success, Thread, Debuggee}
use udi.Msg.Events.{udi_event_breakpoint}
use udi.Msg.Events.Reported.{reported, write_event-reported}
use udi.Msg.Hit.{
  outcome, rewind_thread, is_single_step_bp, is_stepping, set_continue_bp, set_last_bp_address,
  restore_original, continue_hit, report_breakpoint, classify, breakpoint_hit, decode_at,
  decode_breakpoint,
}
use udi.Msg.Hit.Original.{reinstalled, reinstall-lem}
use udi.Msg.Thread.{find_thread, change_thread, set_thread, with_threads}
use udi.Msg.Thread.Suspend.{thread_at-lem, find_thread-changed}
use udi.Msg.Write.{one_pair}
use udi.Register.{Context, rewind_pc}
use udi.X86.{Instruction, get_ctf_successor}
use udi.Prelude.{
  ℕ, ◌≡◌, ◌≢◌, refl, Bool, true, false, Option, some, List, [], ◌++◌, ◌==◌, ==_ne, ==_refl,
}

abbrev pub rewound : Thread → Thread
rewound t = record t { context = rewind_pc t.context }

-- `d` with the program counter of the thread at `thr` moved back.
abbrev pub stopped : Debuggee → Ptr → Debuggee
stopped d thr = with_threads (change_thread thr rewound) d

module _ (d : Debuggee) (thr : Ptr) (t : Thread) (ne : thr ≢ null)
    (at : find_thread thr d.threads ≡ some t) where
  rewind_thread-lem : rewind_thread thr d ≡ ok tt (stopped d thr)
  unfolding rewind_thread set_thread
  rewind_thread-lem = rw (==_ne thr 0 ne, thread_at-lem d thr t at) refl

  pub rewound_at : find_thread thr (stopped d thr).threads ≡ some (rewound t)
  unfolding with_threads
  rewound_at = find_thread-changed d thr t rewound (λ u. refl) at

  is_single_step_bp-lem : (bp : Ptr) → is_single_step_bp thr bp d ≡ ok (t.single_step_bp == bp) d
  unfolding is_single_step_bp
  is_single_step_bp-lem bp = rw (==_ne thr 0 ne, thread_at-lem d thr t at) refl

  pub is_stepping-lem : is_stepping thr d ≡ ok t.single_step d
  unfolding is_stepping
  is_stepping-lem = rw (==_ne thr 0 ne, thread_at-lem d thr t at) refl

-- The bytes of the event of a breakpoint at an address, for a thread.
abbrev pub hit : Cbor → ℕ → ℕ → List ℕ
hit cbor tid address =
    cbor.cbor_serialize (uint16_item udi_event_breakpoint)
    ++ (cbor.cbor_serialize (uint64_item tid)
        ++ cbor.cbor_serialize (one_pair "addr" (uint64_item address)))

module _ (cbor : Cbor) (disassemble : Machine → ℕ → Option Instruction) (d : Debuggee)
    (thr bp : Ptr) (t : Thread) (b : Breakpoint) (v : ℕ) (ne : thr ≢ null)
    (at : find_thread thr d.threads ≡ some t) (no_step : t.single_step_bp ≢ bp)
    (calm : IsCalm d.machine) (ne' : bp ≢ null) (node : d.machine.nodes bp ≡ some b)
    (present : b.in_memory ≡ true) (byte : d.machine.mem b.address ≡ some v) where
  -- A thread that is not single-stepping to it runs into a breakpoint that is in memory, that is neither
  -- the exit breakpoint nor the one of the continue, and that is bound to no thread; memory
  -- is accessible; the successor of the instruction is found, and a structure for it is got. Then the
  -- hit succeeds: the original byte is back in memory before the successor is computed, the breakpoint
  -- at the successor becomes the one of the continue, the address of the hit is kept, exactly
  -- the event of the breakpoint with the id of the thread and the address is reported, whether to
  -- wait for requests is left as it was, and the context and the one of the thread are moved back to
  -- the breakpoint.
  pub decode_breakpoint-user :
      (context : Context) (wait : Bool) (successor : ℕ) (new : Ptr) (b' : Breakpoint)
      (m' m'' : Machine)
      → ((item : Item) → cbor.cbor_serialize item ≢ [])
      → d.write_errors ≡ []
      → bp ≢ d.exit_bp
      → d.continue_bp ≢ bp
      → get_ctf_successor disassemble b.address
          (rewind_pc context)
          (poked d.machine b.address b.saved_byte)
        ≡ ok successor m'
      → successor ≢ 0
      → create_breakpoint successor m' ≡ ok new m''
      → new ≢ null
      → m''.nodes bp ≡ some b'
      → b'.thread ≡ null
      → decode_breakpoint cbor disassemble thr bp context wait d
        ≡ ok
            (outcome success wait, rewind_pc context)
            (reported
              (record (stopped d thr) {
                machine = m'';
                continue_bp = new;
                last_bp_address = b'.address;
              })
              (hit cbor t.id b'.address))
  unfolding decode_breakpoint decode_at breakpoint_hit classify report_breakpoint set_continue_bp
      set_last_bp_address with_threads
  decode_breakpoint-user context wait successor new b' m' m'' ser w other fresh next nz create nn
        node' free =
      rw (rewind_thread-lem d thr t ne at) (
        rw (is_single_step_bp-lem (stopped d thr) thr (rewound t) ne (rewound_at d thr t ne at) bp)
          (rw
            (
              ==_ne t.single_step_bp bp no_step,
              remove_breakpoint_for_continue-lem d.machine bp v b calm ne' node byte present,
              ==_ne d.continue_bp bp fresh,
            )
            (rw
              (
                load_lem (poked d.machine b.address b.saved_byte) bp b ne' node,
                next,
                ==_ne successor 0 nz,
                create,
                ==_ne new 0 nn,
                load_lem m'' bp b' ne' node',
                ==_ne bp d.exit_bp other,
                free,
              )
              (rw
                (thread_at-lem
                  (record (stopped d thr) {
                    machine = m'';
                    continue_bp = new;
                    last_bp_address = b'.address;
                  })
                  thr (rewound t) (rewound_at d thr t ne at))
                (rw
                  (write_event-reported cbor ser
                    (record (stopped d thr) {
                      machine = m'';
                      continue_bp = new;
                      last_bp_address = b'.address;
                    })
                    udi_event_breakpoint t.id (some (one_pair "addr" (uint64_item b'.address))) w)
                  refl)))))

  -- A thread that is not single-stepping runs into the breakpoint of the continue, which is in memory and
  -- can be deleted; the table then has the breakpoint of the last hit for its address, that one counts as
  -- in memory, and memory is accessible. Then the hit succeeds without waiting for requests: the
  -- breakpoint instruction is back at the address of the last hit, the byte that stood there is saved, the
  -- rest of memory is as the deletion left it, no breakpoint is one of a continue any more, and
  -- nothing is reported.
  pub decode_breakpoint-continue :
      (context : Context) (wait : Bool) (m' : Machine) (view : ℕ → Cells) (original : Ptr)
      (o : Breakpoint) (w : ℕ)
      → d.continue_bp ≡ bp
      → t.single_step ≡ false
      → delete_breakpoint bp (poked d.machine b.address b.saved_byte) ≡ ok true m'
      → Holds m' view
      → find_in d.last_bp_address (view (breakpoint_hash d.last_bp_address)) ≡ original
      → original ≢ null
      → m'.nodes original ≡ some o
      → o.in_memory ≡ true
      → IsCalm m'
      → m'.mem o.address ≡ some w
      → (m'' : Machine) × (decode_breakpoint cbor disassemble thr bp context wait d
          ≡ ok
              (outcome success false, rewind_pc context)
              (record (stopped d thr) { machine = m''; continue_bp = null; last_bp_address = 0 }))
        × (m''.mem o.address ≡ some breakpoint_insn)
        × ((a : ℕ) → o.address ≢ a → m''.mem a ≡ m'.mem a)
        × (m''.nodes original ≡ some (record o { saved_byte = w; in_memory = true }))
  unfolding decode_breakpoint decode_at continue_hit restore_original set_continue_bp
      set_last_bp_address with_threads
  decode_breakpoint-continue context wait m' view original o w e ns del holds found nn node'
        present' calm' byte' =
      (
        reinstalled m' original w o calm' nn node' present' byte',
        rw (rewind_thread-lem d thr t ne at) (
            rw
              (is_single_step_bp-lem (stopped d thr) thr (rewound t) ne (rewound_at d thr t ne at)
                bp)
              (rw
                (
                  ==_ne t.single_step_bp bp no_step,
                  remove_breakpoint_for_continue-lem d.machine bp v b calm ne' node byte present,
                  e,
                  ==_refl bp,
                  del,
                  find_breakpoint-Holds m' view d.last_bp_address holds,
                  found,
                  ==_ne original 0 nn,
                )
                (rw
                  (reinstall-lem m' original w o calm' nn node' present' byte'
                    (record (stopped d thr) {
                      machine = m';
                      continue_bp = null;
                      last_bp_address = 0;
                    })
                    refl)
                  (rw
                    (is_stepping-lem
                      (record (stopped d thr) {
                        machine = reinstalled m' original w o calm' nn node' present' byte';
                        continue_bp = null;
                        last_bp_address = 0;
                      })
                      thr (rewound t) ne (rewound_at d thr t ne at))
                    (rw ns refl))))),
        rw (==_refl o.address),
        λ a n. rw (==_ne o.address a n),
        rw (==_refl original),
      )
