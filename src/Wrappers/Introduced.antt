-- ===== src/Wrappers/Introduced.antt =====
-- A new thread is introduced to the debugger.
use mathlib.Core.List.{append_assoc}
use udi.Barrier.{Read, got, Shared, sentinel}
use udi.Cmd.{ok, ◌>>=◌}
use udi.Files.{open_read, open_write}
use udi.Format.{ℤ}
use udi.Handler.{Library, debuggee_of, with_debuggee, on_barrier, on_debuggee}
use udi.Machine.{Ptr, null, Machine}
use udi.Msg.{Cbor, Item, uint16_item, uint64_item}
use udi.Msg.Debuggee.{success, Thread, Debuggee, has_thread}
use udi.Msg.Events.{handle_thread_create_event, udi_event_thread_create}
use udi.Msg.Events.Reported.{reported, write_event-reported}
use udi.Msg.Files.{request_file_name, response_file_name}
use udi.Msg.Files.Deleted.{made, with_files, thread_create_callback-made}
use udi.Msg.Files.Named.{IsNamed}
use udi.Msg.Read.{Pipe}
use udi.Msg.Thread.{find_thread, change_thread}
use udi.Msg.Write.{one_pair}
use udi.Msg.Write.Responses.{bytes_of}
use udi.Paths.Whole.{within, thread_dir_of}
use udi.Signals.{SignalSet}
use udi.Threads.{new_thread}
use udi.Threads.Handshake.Answered.{
  HoldsInit, init_answer, connected, thread_create_handshake-connects,
}
use udi.Threads.Linked.{linked, create_thread-lem}
use udi.Wrappers.{
  try_trigger, control_loop, await_control, give_control, introduce, handle_thread_create,
}
use udi.X86.{Instruction}
use udi.Prelude.{
  ℕ, ◌+◌, ◌^◌, ◌<◌, ◌≡◌, ◌≢◌, refl, ◌∙◌, ap, false, Option, some, List, [], ◌∷◌, ◌++◌, arith, ◌==◌,
  ==_refl, Bool-cases, inl, inr,
}

find_thread-last :
    (self : Ptr) (ts : List Thread) (t : Thread)
    → has_thread self ts ≡ false
    → t.self ≡ self
    → find_thread self (ts ++ (t ∷ [])) ≡ some t
unfolding find_thread has_thread
find_thread-last self [] t h e = rw (e, ==_refl self) refl
find_thread-last self (u ∷ us) t h e = ground (arith, find_thread-last self us t)

change_thread-last :
    (self : Ptr) (f : Thread → Thread) (ts : List Thread) (t : Thread)
    → has_thread self ts ≡ false
    → t.self ≡ self
    → change_thread self f (ts ++ (t ∷ [])) ≡ ts ++ (f t ∷ [])
unfolding change_thread has_thread
change_thread-last self f [] t h e = rw (e, ==_refl self) refl
change_thread-last self f (u ∷ us) t h e = elim (Bool-cases (u.self == self)) [
  | inl c ↦ absurd (ground arith)
  | inr c ↦ rw (c, change_thread-last self f us t (rw c at h) e) refl
]

module _ (cbor : Cbor) (disassemble : Machine → ℕ → Option Instruction) (strerror : ℤ → List ℕ)
    (unset : SignalSet) where
  -- The thread is given control at once.
  given_control :
      (l : Library) (meanwhile : Shared → Shared) (later : List Read)
      → l.barrier.writes ≡ []
      → l.barrier.reads ≡ got sentinel meanwhile ∷ later
      → (do written ← on_barrier try_trigger; give_control cbor disassemble strerror unset written)
          l
        ≡ ok success (record l {
          barrier = record l.barrier {
            shared = meanwhile l.barrier.shared;
            writes = [];
            reads = later;
            triggers = l.barrier.triggers + 1;
          };
        })
  unfolding on_barrier try_trigger give_control await_control control_loop
  given_control l meanwhile later w r = rw (w, r) refl

-- The bytes of the event of a new thread.
pub create_event : Cbor → ℕ → ℕ → List ℕ
create_event cbor creator_tid tid =
    cbor.cbor_serialize (uint16_item udi_event_thread_create)
    ++ (cbor.cbor_serialize (uint64_item creator_tid)
        ++ bytes_of cbor (some (one_pair "tid" (uint64_item tid))))

module _ (cbor : Cbor) (disassemble : Machine → ℕ → Option Instruction) (strerror : ℤ → List ℕ)
    (unset : SignalSet) (serializes : (item : Item) → cbor.cbor_serialize item ≢ []) where
  -- Where the debugger has put an init request into the request pipe of the new thread, the names of files are
  -- written whole, the id of the running thread fits in 64 bits, and the operating system, the allocator, the
  -- pipes and the barrier grant what is asked, `handle_thread_create` in the new thread succeeds, when its own
  -- sentinel is the first thing it reads. It has then put the structure of the thread, with the id of the
  -- running thread, at the end of the list, which is as before otherwise; made the files of the thread and
  -- opened its pipes, in this order; written one event, of the creating thread and with that id; answered the
  -- init request on the response pipe of the thread; and triggered the barrier once. What the other threads
  -- did before it read the sentinel comes last.
  pub handle_thread_create-introduces :
      (l : Library) (d : Debuggee) (creator_tid : ℕ) (new : Ptr) (more : List Ptr) (q q' : Pipe)
      (rest : List Pipe) (meanwhile : Shared → Shared) (later : List Read)
      → debuggee_of l ≡ d
      → HoldsInit cbor q q'
      → IsNamed d.files
      → d.files.outcomes ≡ []
      → d.files.requests ≡ q ∷ rest
      → d.user_thread_id < 2 ^ 64
      → d.addresses ≡ new ∷ more
      → new ≢ null
      → has_thread new d.threads ≡ false
      → d.pipes ≡ []
      → d.write_errors ≡ []
      → l.barrier.writes ≡ []
      → l.barrier.reads ≡ got sentinel meanwhile ∷ later
      → (d' : Debuggee) × (handle_thread_create cbor disassemble strerror unset creator_tid l
          ≡ ok success (record l {
            barrier = record l.barrier {
              shared = meanwhile (record l.barrier.shared { debuggee = d' });
              writes = [];
              reads = later;
              triggers = l.barrier.triggers + 1;
            };
          }))
        × (d'.threads
            ≡ d.threads
              ++ (record (new_thread new d.user_thread_id) {
                request_pipe = q';
                response_output = init_answer cbor d.multithread_capable d.user_thread_id;
              }
                  ∷ []))
        × (d'.num_threads ≡ d.num_threads + 1)
        × (d'.files.done
            ≡ d.files.done
              ++ (made (thread_dir_of d.files.basedir_name d.user_thread_id)
                  ++ (open_read (
                        within
                          (thread_dir_of d.files.basedir_name d.user_thread_id)
                          request_file_name)
                      ∷ open_write (
                          within
                            (thread_dir_of d.files.basedir_name d.user_thread_id)
                            response_file_name)
                      ∷ [])))
        × (d'.events ≡ d.events ++ create_event cbor creator_tid d.user_thread_id)
        × (d'.output ≡ d.output)
  unfolding handle_thread_create introduce on_debuggee handle_thread_create_event create_event
  handle_thread_create-introduces l d creator_tid new more q q' rest meanwhile later at holds named
        works requests wide next ne unused pipes w writes reads =
      let tid = d.user_thread_id in
      let t = new_thread new tid in
      let opened : Thread → Thread = λ v. record v { request_pipe = q } in
      let answered : Thread → Thread = λ v. record v {
        request_pipe = q';
        response_output = init_answer cbor d.multithread_capable tid;
      } in
      let d1 = linked d new tid more next ne unused pipes in
      let d2 = with_files d1 t named wide works in
      let d3 = reported d2 (create_event cbor creator_tid tid) in
      let named3 : IsNamed d3.files = record {
        granted = named.granted;
        sized = named.sized;
        clean = named.clean;
        short = named.short;
      } in
      let there = find_thread-last new d.threads t unused refl in
      let d4 =
        connected cbor strerror serializes q q' holds d3 t t rest named3 refl wide requests there
          refl in
      (
        d4,
        rw
            (
              at,
              create_thread-lem d new tid more next ne unused pipes,
              thread_create_callback-made d1 t named wide works,
              write_event-reported cbor serializes d2 udi_event_thread_create creator_tid
                  (some (one_pair "tid" (uint64_item tid))) w,
              thread_create_handshake-connects cbor strerror serializes q q' holds d3 t t rest
                  named3 refl wide requests there refl,
            )
            (given_control cbor disassemble strerror unset (with_debuggee d4 l) meanwhile later
              writes reads),
        ap (change_thread new answered) (change_thread-last new opened d.threads t unused refl)
            ∙ change_thread-last new answered d.threads (opened t) unused refl,
        refl,
        simp append_assoc,
        refl,
        refl,
      )
