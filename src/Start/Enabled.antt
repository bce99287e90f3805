-- ===== src/Start/Enabled.antt =====
-- The library is enabled once a debugger that answers is connected.
use udi.Cmd.{ok}
use udi.Format.{ℤ}
use udi.Handler.{Library, debuggee_of, with_debuggee, on_debuggee}
use udi.Machine.{Ptr, null, Machine}
use udi.Msg.{Cbor, Item}
use udi.Msg.Debuggee.{success, Debuggee}
use udi.Msg.Files.Named.{IsNamed}
use udi.Msg.Read.{Pipe}
use udi.Signals.{SignalSet, Action}
use udi.Start.{enable, handshake_with_debugger}
use udi.Threads.{new_thread}
use udi.Threads.Handshake.Answered.{HoldsInit, init_answer}
use udi.Threads.Handshake.Connected.{connecting, both_handshakes-connects}
use udi.X86.{Instruction}
use udi.Prelude.{ℕ, ◌^◌, ◌<◌, ◌≡◌, ◌≢◌, refl, Option, true, List, [], ◌∷◌, ◌++◌}

-- Where a debugger has put an init request into the request pipe of the process and into that of its
-- first thread, the process has no threads yet, its names are written whole, and the operating system, the
-- allocator and the response pipes grant what is asked: `handshake_with_debugger` succeeds and enables the
-- library. It opens the pipes of the process, makes the files of the thread, and opens the events pipe and the
-- pipes of the thread, in this order; the process has then exactly the one thread, of the id of the running thread; and the
-- init request is answered once on the response pipe of the process and once on that of the thread,
-- both with that id.
pub handshake_with_debugger-connects :
    (cbor : Cbor) (disassemble : Machine → ℕ → Option Instruction) (strerror : ℤ → List ℕ)
    (unset : SignalSet) (indeterminate : Action) (l : Library) (d : Debuggee) (new : Ptr)
    (more : List Ptr) (p p' q q' : Pipe) (rest : List Pipe)
    → debuggee_of l ≡ d
    → ((item : Item) → cbor.cbor_serialize item ≢ [])
    → HoldsInit cbor p p'
    → HoldsInit cbor q q'
    → IsNamed d.files
    → d.files.outcomes ≡ []
    → d.files.requests ≡ p ∷ q ∷ rest
    → d.user_thread_id < 2 ^ 64
    → d.threads ≡ []
    → d.addresses ≡ new ∷ more
    → new ≢ null
    → d.pipes ≡ []
    → d.write_errors ≡ []
    → (d' : Debuggee) × (handshake_with_debugger cbor disassemble strerror unset indeterminate l
        ≡ ok success (record (with_debuggee d' l) { udi_enabled = true }))
      × (d'.files.done ≡ d.files.done ++ connecting d.files d.user_thread_id)
      × (d'.output ≡ d.output ++ init_answer cbor d.multithread_capable d.user_thread_id)
      × (d'.pipe ≡ p')
      × (d'.threads
          ≡ record (new_thread new d.user_thread_id) {
            request_pipe = q';
            response_output = init_answer cbor d.multithread_capable d.user_thread_id;
          }
            ∷ [])
unfolding handshake_with_debugger on_debuggee enable
handshake_with_debugger-connects cbor disassemble strerror unset indeterminate l d new more p p' q
      q' rest at serializes holds holds' named works requests wide none_yet next ne pipes w =
    let (d', runs, done, output, pipe, threads) =
      both_handshakes-connects cbor strerror d new more p p' q q' rest serializes holds holds' named
        works requests wide none_yet next ne pipes w in
    (d', rw at (rw runs refl), done, output, pipe, threads)
