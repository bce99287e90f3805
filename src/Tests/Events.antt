-- ===== src/Tests/Events.antt =====
-- The theorems on breakpoint hits at concrete inputs: a thread runs into the breakpoint at 70, and,
-- continued from there, into the one at 72.
use udi.Breakpoint.{blank, breakpoint_hash, breakpoint_insn, delete_breakpoint}
use udi.Breakpoint.Chain.{Cells, Holds, Holds-update, nil, cons, find_in}
use udi.Breakpoint.Create.{create_breakpoint-first}
use udi.Breakpoint.Delete.{delete_breakpoint-head, delete_breakpoint-installed, emptied}
use udi.Breakpoint.Install.{IsCalm, poked, with_node, poked-IsCalm, remove_breakpoint-lem}
use udi.Cmd.{ok, pure, ◌>>=◌}
use udi.Entry.{sigtrap, get_trap_address, await_requests, handle_signal}
use udi.Entry.Reached.{handle_signal-breakpoint}
use udi.Format.{ℤ}
use udi.Machine.{maperr, Breakpoint, Machine, null, update}
use udi.Msg.Debuggee.{Debuggee, success}
use udi.Msg.Events.Reported.{reported}
use udi.Msg.Hit.{outcome, decode_breakpoint}
use udi.Msg.Hit.Decoded.{stopped, hit, decode_breakpoint-continue}
use udi.Msg.Thread.{find_thread}
use udi.Register.{Context, rewind_pc, get_pc}
use udi.Runtime.{Process}
use udi.Tests.Samples.{machine, machine-Holds, no_cells, cbor, cbor-serializes, debuggee, thread}
use udi.X86.{other, Instruction, op_jimm}
use udi.X86.Successor.{get_ctf_successor-other}
use udi.Prelude.{ℕ, ◌≡◌, ◌≢◌, ◌∙◌, refl, true, false, Option, none, some, List, [], ◌∷◌, arith}

-- Every instruction has two bytes and is no jump.
abbrev two_bytes : Instruction
two_bytes = record {
  mnemonic = other;
  insn_len = 2;
  operand = record {
    type = op_jimm;
    size = 8;
    base = none;
    index = none;
    offset = 0;
    scale = 0;
    lval = 0;
  };
}

abbrev straight : Machine → ℕ → Option Instruction
straight m pc = some two_bytes

abbrev context : Context
context n = 71

abbrev user_breakpoint : Breakpoint
user_breakpoint = record (blank 70) { in_memory = true; saved_byte = 70 }

-- The machine with the breakpoint at 70 in memory.
abbrev before : Machine
before = record machine {
  mem = update machine.mem 70 (some breakpoint_insn);
  nodes = update machine.nodes 500 (some user_breakpoint);
  breakpoints = update machine.breakpoints 70 500;
  allocated = 1;
  mallocs = 600 ∷ [];
}

before-IsCalm : IsCalm before
before-IsCalm = record {
  readable = λ p. refl;
  writable = λ p. refl;
  rounds = omega arith;
  idle = refl;
  pre = refl;
  post = refl;
}

abbrev running_into : Debuggee
running_into = record (debuggee before []) { threads = thread 40 ∷ []; num_threads = 1 }

-- The structure for 72 is the one at 600.
abbrev after : Machine
after = record (poked before 70 70) {
  mallocs = [];
  allocated = 2;
  nodes = update before.nodes 600 (some (blank 72));
  breakpoints = update before.breakpoints 72 600;
}

abbrev continue_breakpoint : Breakpoint
continue_breakpoint = record (blank 72) { in_memory = true; saved_byte = 72 }

-- Once the breakpoint at 72 is in memory.
abbrev continued : Machine
continued = record after {
  mem = update after.mem 72 (some breakpoint_insn);
  nodes = update after.nodes 600 (some continue_breakpoint);
}

continued-IsCalm : IsCalm continued
continued-IsCalm = record {
  readable = λ p. refl;
  writable = λ p. refl;
  rounds = omega arith;
  idle = refl;
  pre = refl;
  post = refl;
}

abbrev running_again : Debuggee
running_again = record running_into { machine = continued; continue_bp = 600; last_bp_address = 70 }

-- Twice the saved byte is written.
abbrev removed : Machine
removed =
    with_node (poked (poked continued 72 72) 72 72) 600
      (record continue_breakpoint { in_memory = false })

abbrev deleted : Machine
deleted = emptied removed 72 600

abbrev user_cell : ℕ → Cells
user_cell = update no_cells 70 ((500, 70) ∷ [])

deleted-Holds : Holds deleted user_cell
unfolding breakpoint_hash
deleted-Holds =
    Holds-update machine-Holds deleted 70 ((500, 70) ∷ [])
      (cons {b = user_breakpoint} (ground arith) refl refl refl refl refl (nil refl))
      (λ k n. ground arith) (λ k n q i. ground arith) (λ a i. ground arith) (omega arith)
      (omega arith)

deleted-IsCalm : IsCalm deleted
deleted-IsCalm = record {
  readable = λ p. refl;
  writable = λ p. refl;
  rounds = omega arith;
  idle = refl;
  pre = refl;
  post = refl;
}

delete_run : delete_breakpoint 600 (poked continued 72 72) ≡ ok true deleted
unfolding breakpoint_hash
delete_run =
    delete_breakpoint-installed (poked continued 72 72) removed 600
      (record continue_breakpoint { in_memory = false })
      (remove_breakpoint-lem (poked continued 72 72) 600 72 continue_breakpoint
        (poked-IsCalm continued 72 72 continued-IsCalm) (ground arith) refl refl refl)
      (ground arith) refl refl
    ∙ delete_breakpoint-head removed 600 (record continue_breakpoint { in_memory = false })
        (ground arith) refl refl refl

decode_breakpoint-continue_example :
    (m'' : Machine) × (decode_breakpoint cbor straight 40 600 context true running_again
      ≡ ok
          (outcome success false, rewind_pc context)
          (record (stopped running_again 40) {
            machine = m'';
            continue_bp = null;
            last_bp_address = 0;
          }))
    × (m''.mem 70 ≡ some breakpoint_insn)
    × ((a : ℕ) → 70 ≢ a → m''.mem a ≡ deleted.mem a)
    × (m''.nodes 500 ≡ some (record user_breakpoint { saved_byte = 70; in_memory = true }))
unfolding find_thread breakpoint_hash find_in
decode_breakpoint-continue_example =
    decode_breakpoint-continue cbor straight running_again 40 600 (thread 40) continue_breakpoint
      0xcc (ground arith) refl (ground arith) continued-IsCalm (ground arith) refl refl refl context
      true deleted user_cell 500 user_breakpoint 70 refl refl delete_run deleted-Holds refl
      (ground arith) refl refl deleted-IsCalm refl

before-Holds : Holds before user_cell
unfolding breakpoint_hash
before-Holds =
    Holds-update machine-Holds before 70 ((500, 70) ∷ [])
      (cons {b = user_breakpoint} (ground arith) refl refl refl refl refl (nil refl))
      (λ k n. ground arith) (λ k n q i. ground arith) (λ a i. ground arith) (omega arith)
      (omega arith)

abbrev no_strerror : ℤ → List ℕ
no_strerror e = []

abbrev trapping : Process
trapping = record { debuggee = running_into; selects = [] }

trap_test :
    find_in (get_trap_address context) (user_cell (breakpoint_hash (get_trap_address context)))
    ≡ 500
unfolding get_trap_address get_pc breakpoint_hash find_in
trap_test = refl

handle_signal-breakpoint_example :
    handle_signal cbor straight no_strerror 8192 sigtrap maperr 40 context trapping
    ≡ (do
      waited ← await_requests cbor straight no_strerror 8192 true
      pure (waited, rewind_pc context))
        (record trapping {
          debuggee =
              reported
                (record (stopped running_into 40) {
                  machine = after;
                  continue_bp = 600;
                  last_bp_address = 70;
                })
                (hit cbor 41 70);
        })
unfolding find_thread breakpoint_hash
handle_signal-breakpoint_example =
    handle_signal-breakpoint cbor straight no_strerror 8192 maperr trapping 40 500 (thread 40)
      user_breakpoint 0xcc user_cell context 72 600 user_breakpoint (poked before 70 70) after
      (ground arith) (ground arith) (ground arith) refl before-IsCalm before-Holds trap_test
      (ground arith) refl refl refl cbor-serializes refl (ground arith) (ground arith)
      (get_ctf_successor-other straight (poked before 70 70) 70 (rewind_pc context) two_bytes refl
        refl (ground arith))
      (ground arith)
      (create_breakpoint-first (poked before 70 70) 72 600 [] refl (ground arith) refl)
      (ground arith) refl refl
