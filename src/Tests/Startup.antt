-- ===== src/Tests/Startup.antt =====
-- The theorems on the start of a process and of a thread at concrete inputs.
use mathlib.Core.List.{reverse}
use udi.Cmd.{ok}
use udi.Filesystem.{create_udi_filesystem}
use udi.Filesystem.Calls.{run_calls}
use udi.Filesystem.Made.{root_of, process_calls, create_udi_filesystem-made}
use udi.Format.{pos}
use udi.Format.Decimal.{decimal_value}
use udi.Format.Numbered.{decimal}
use udi.Handler.{with_debuggee}
use udi.Msg.Debuggee.{success, Debuggee}
use udi.Msg.Files.{thread_create_callback, thread_death_handshake}
use udi.Msg.Files.Deleted.{made, undo, thread_death_handshake-thread_create_callback}
use udi.Msg.Files.Named.{IsNamed}
use udi.Msg.Read.{Pipe, after_decode, round, read_items, read_cbor_items}
use udi.Msg.Request.{request_type_callbacks}
use udi.Msg.Write.{read_request_type, read_with, finish, read_status}
use udi.Paths.Whole.{within, thread_dir_of}
use udi.Signals.{Signals}
use udi.Signals.Hooks.{
  pre_mem_access_hook, post_mem_access_hook, Unblocked, post_mem_access_hook-pre_mem_access_hook,
}
use udi.Start.{handshake_with_debugger}
use udi.Start.Enabled.{handshake_with_debugger-connects}
use udi.Tests.Handlers.{library, handling, handled_at, no_signals, no_instruction, no_strerror}
use udi.Tests.Names.{filled-sized}
use udi.Tests.Samples.{machine, cbor, cbor-serializes, files, debuggee, thread}
use udi.Threads.{new_thread}
use udi.Threads.Handshake.Answered.{HoldsInit, init_answer}
use udi.Threads.Handshake.Connected.{connecting}
use udi.Transfer.{Writer, wrote, refused, Arrived, bytes, failed, write_to, read_from}
use udi.Transfer.Pieces.{takes, brings, read_from-write_to}
use udi.Prelude.{
  ℕ, ◌≡◌, refl, Bool, Option, true, false, none, List, [], ◌∷◌, ◌++◌, arith, map, codes,
}

-- A pipe with an init request.
abbrev pub requesting : Pipe
requesting = record { input = 7 ∷ []; input_error = 0 }

abbrev pub empty : Pipe
empty = record { input = []; input_error = 0 }

pub requesting-HoldsInit : HoldsInit cbor requesting empty
unfolding HoldsInit read_request_type read_with finish read_status after_decode round read_items
    read_cbor_items request_type_callbacks
requesting-HoldsInit e at = rw at refl

files-IsNamed : IsNamed files
files-IsNamed = record {
  granted = λ n. refl;
  sized = filled-sized;
  clean = refl;
  short = omega arith;
}

abbrev starting : Debuggee
starting = record (debuggee machine []) {
  files = record files { requests = requesting ∷ requesting ∷ [] };
  addresses = 70 ∷ [];
}

handshake_with_debugger-connects_example :
    (d' : Debuggee) × (handshake_with_debugger cbor no_instruction no_strerror no_signals
        (handled_at 7)
        (with_debuggee starting library)
      ≡ ok success (record (with_debuggee d' library) { udi_enabled = true }))
    × (d'.files.done ≡ [] ++ connecting starting.files 41)
    × (d'.output ≡ [] ++ init_answer cbor false 41)
    × (d'.pipe ≡ empty)
    × (d'.threads
        ≡ record (new_thread 70 41) {
          request_pipe = empty;
          response_output = init_answer cbor false 41;
        }
          ∷ [])
handshake_with_debugger-connects_example =
    handshake_with_debugger-connects cbor no_instruction no_strerror no_signals (handled_at 7)
      (with_debuggee starting library) starting 70 [] requesting empty requesting empty [] refl
      cbor-serializes requesting-HoldsInit requesting-HoldsInit
      (record { granted = λ n. refl; sized = filled-sized; clean = refl; short = omega arith }) refl
      refl (omega arith) refl refl (ground arith) refl refl

thread_death_handshake-thread_create_callback_example :
    (d' d'' : Debuggee) × (thread_create_callback (thread 50) (debuggee machine []) ≡ ok true d')
    × (d'.files.done ≡ [] ++ made (thread_dir_of (codes "/tmp/udi/41") 51))
    × (thread_death_handshake (record (thread 50) { dead = true }) (record d' { closes = [] })
        ≡ ok true d'')
    × (d''.files.done
        ≡ d'.files.done ++ map undo (reverse (made (thread_dir_of (codes "/tmp/udi/41") 51))))
thread_death_handshake-thread_create_callback_example =
    thread_death_handshake-thread_create_callback (debuggee machine []) (thread 50)
      (λ e. record e { closes = [] }) files-IsNamed (omega arith) refl (λ e. refl) (λ e. refl)

-- The second call is refused.
abbrev refusing : Debuggee
refusing = record (debuggee machine []) { files = record files { outcomes = 0 ∷ 13 ∷ [] } }

create_udi_filesystem-made_example :
    (base : List ℕ) × (d' : Debuggee) × (base ≡ within (root_of none) (decimal 41))
    × (decimal_value 0 (decimal 41) ≡ 41)
    × (create_udi_filesystem none 41 refusing
        ≡ ok (run_calls (process_calls base) (0 ∷ 13 ∷ [])).1 d')
    × (d'.files.done ≡ [] ++ (run_calls (process_calls base) (0 ∷ 13 ∷ [])).0)
    × (d'.files.basedir_name ≡ base)
create_udi_filesystem-made_example =
    create_udi_filesystem-made none 41 refusing
      (record { granted = λ n. refl; sized = filled-sized }) refl (omega arith) (omega arith)

abbrev writer : Writer
writer = record { writes = wrote 1 ∷ refused 4 ∷ wrote 5 ∷ []; sent = [] }

abbrev arriving : List Arrived
arriving = bytes (1 ∷ 2 ∷ []) ∷ failed 4 ∷ bytes (3 ∷ 9 ∷ []) ∷ []

read_from-write_to_example :
    (w' : Writer) × (rest : List Arrived) × (write_to (1 ∷ 2 ∷ 3 ∷ []) writer ≡ ok 0 w')
    × (w'.sent ≡ [] ++ (1 ∷ 2 ∷ 3 ∷ []))
    × (read_from 3 arriving ≡ ok (pos 0, 1 ∷ 2 ∷ 3 ∷ []) rest)
    × (brings rest ≡ 9 ∷ [])
unfolding takes brings
read_from-write_to_example =
    read_from-write_to (1 ∷ 2 ∷ 3 ∷ []) (9 ∷ []) writer arriving (omega arith) refl

post_mem_access_hook-pre_mem_access_hook_example :
    (set : Option (ℕ → Bool)) × (s' : Signals) × (pre_mem_access_hook true handling ≡ ok set s')
    × Unblocked handling set s'
    × (post_mem_access_hook handling.blocked (record s' { sigmasks = [] })
        ≡ ok true (record s' { sigmasks = []; blocked = handling.blocked }))
post_mem_access_hook-pre_mem_access_hook_example =
    post_mem_access_hook-pre_mem_access_hook true handling
