-- ===== src/Threads/Handshake/Connected.antt =====
-- How a debugger that answers is connected to a process and to its first thread.
use udi.Threads.Handshake.Answered.{
  HoldsInit, init_answer, open_or-doing, perform_init_handshake-init, connected,
  thread_create_handshake-connects,
}
use mathlib.Core.List.{append_assoc}
use udi.Cmd.{ok}
use udi.Files.{FileCall, Files, open_read, open_write}
use udi.Format.{ℤ}
use udi.Machine.{Ptr, null}
use udi.Msg.{Cbor, Item}
use udi.Msg.Debuggee.{success, Thread, Debuggee, has_thread}
use udi.Msg.Files.{request_file_name, response_file_name}
use udi.Msg.Files.Deleted.{made, with_files, thread_create_callback-made}
use udi.Msg.Files.Named.{doing, IsNamed, doing-IsNamed}
use udi.Msg.Read.{Pipe}
use udi.Msg.Thread.{find_thread, change_thread}
use udi.Msg.Write.Responses.{sent}
use udi.Paths.Whole.{within, thread_dir_of}
use udi.Threads.{new_thread, create_initial_thread}
use udi.Threads.Handshake.{
  with_request, open_request, put_out, open_events, make_files, process_response_fd_callback,
  handshake_of, process_handshake, both_handshakes,
}
use udi.Threads.Linked.{linked, create_thread-lem}
use udi.Prelude.{ℕ, ◌^◌, ◌<◌, ◌≡◌, ◌≢◌, refl, ◌∙◌, false, some, none, List, [], ◌∷◌, ◌++◌, ==_refl}

module _ (e : Debuggee) (new : Ptr) (more : List Ptr) (next : e.addresses ≡ new ∷ more)
    (ne : new ≢ null) (unused : has_thread new e.threads ≡ false) (pipes : e.pipes ≡ [])
    (named : IsNamed e.files) (works : e.files.outcomes ≡ [])
    (wide : e.user_thread_id < 2 ^ 64) where
  abbrev first_thread : Thread
  first_thread = new_thread new e.user_thread_id

  -- With the response pipe, and with the structure of the thread.
  abbrev with_thread : Debuggee
  with_thread =
      linked (doing e (open_write e.files.responsefile_name)) new e.user_thread_id more next ne
        unused pipes

  abbrev thread_named : IsNamed with_thread.files
  thread_named = doing-IsNamed e (open_write e.files.responsefile_name) named

  abbrev answering : Debuggee
  answering =
      record (doing (with_files with_thread first_thread thread_named wide refl)
        (open_write e.files.eventsfile_name)) { ctx = some first_thread }

  process_response_fd_callback-connects : process_response_fd_callback e ≡ ok success answering
  unfolding process_response_fd_callback create_initial_thread make_files open_events put_out
  process_response_fd_callback-connects =
      open_or-doing (open_write e.files.responsefile_name) _ _ e works
      ∙ rw
          (
            create_thread-lem (doing e (open_write e.files.responsefile_name)) new e.user_thread_id
                more next ne unused pipes,
            thread_create_callback-made with_thread first_thread thread_named wide refl,
            open_or-doing (open_write e.files.eventsfile_name)
                "error opening response file fifo: %e" (put_out first_thread)
                (with_files with_thread first_thread thread_named wide refl) refl,
          )
          refl

-- The calls that open the pipes of the process and of its first thread, around those that make the
-- latter.
pub connecting : Files → ℕ → List FileCall
connecting f tid =
    open_read f.requestfile_name
    ∷ open_write f.responsefile_name
    ∷ (made (thread_dir_of f.basedir_name tid)
        ++ (open_write f.eventsfile_name
            ∷ open_read (within (thread_dir_of f.basedir_name tid) request_file_name)
            ∷ open_write (within (thread_dir_of f.basedir_name tid) response_file_name)
            ∷ []))

no_thread : (self : Ptr) (ts : List Thread) → ts ≡ [] → has_thread self ts ≡ false
unfolding has_thread
no_thread self ts e = rw e refl

find_thread-only :
    (t : Thread) (ts : List Thread) → ts ≡ [] → find_thread t.self (ts ++ (t ∷ [])) ≡ some t
unfolding find_thread
find_thread-only t ts e = rw (e, ==_refl t.self) refl

change_thread-only :
    (t : Thread) (ts : List Thread) (f g : Thread → Thread)
    → ts ≡ []
    → Thread.self (f t) ≡ t.self
    → change_thread t.self g (change_thread t.self f (ts ++ (t ∷ []))) ≡ g (f t) ∷ []
unfolding change_thread
change_thread-only t ts f g e keep = rw (e, ==_refl t.self, keep, ==_refl t.self) refl

pub both_handshakes-connects :
    (cbor : Cbor) (strerror : ℤ → List ℕ) (d : Debuggee) (new : Ptr) (more : List Ptr)
    (p p' q q' : Pipe) (rest : List Pipe)
    → ((item : Item) → cbor.cbor_serialize item ≢ [])
    → HoldsInit cbor p p'
    → HoldsInit cbor q q'
    → IsNamed d.files
    → d.files.outcomes ≡ []
    → d.files.requests ≡ p ∷ q ∷ rest
    → d.user_thread_id < 2 ^ 64
    → d.threads ≡ []
    → d.addresses ≡ new ∷ more
    → new ≢ null
    → d.pipes ≡ []
    → d.write_errors ≡ []
    → (d' : Debuggee) × (both_handshakes cbor strerror d ≡ ok success d')
      × (d'.files.done ≡ d.files.done ++ connecting d.files d.user_thread_id)
      × (d'.output ≡ d.output ++ init_answer cbor d.multithread_capable d.user_thread_id)
      × (d'.pipe ≡ p')
      × (d'.threads
          ≡ record (new_thread new d.user_thread_id) {
            request_pipe = q';
            response_output = init_answer cbor d.multithread_capable d.user_thread_id;
          }
            ∷ [])
unfolding both_handshakes open_request with_request process_handshake handshake_of
both_handshakes-connects cbor strerror d new more p p' q q' rest serializes holds holds' named works
      requests wide none_yet next ne pipes w =
    let tid = d.user_thread_id in
    let t = new_thread new tid in
    let e : Debuggee = record d {
      files = record d.files {
        outcomes = [];
        done = d.files.done ++ (open_read d.files.requestfile_name ∷ []);
        requests = q ∷ rest;
      };
      pipe = p;
      ctx = none;
    } in
    let r : Debuggee = record e { pipe = p' } in
    let named' : IsNamed r.files = record {
      granted = named.granted;
      sized = named.sized;
      clean = named.clean;
      short = named.short;
    } in
    let unused : has_thread new r.threads ≡ false = no_thread new r.threads none_yet in
    let ans = answering r new more next ne unused pipes named' refl wide in
    let d8 = sent ans (init_answer cbor d.multithread_capable tid) in
    let named8 : IsNamed d8.files = record {
      granted = named.granted;
      sized = named.sized;
      clean = named.clean;
      short = named.short;
    } in
    let there = find_thread-only t d.threads none_yet in
    (
      connected cbor strerror serializes q q' holds' d8 t t rest named8 refl wide refl there refl,
      open_or-doing (open_read d.files.requestfile_name) _ _ d works
          ∙ rw requests (
              rw
                (perform_init_handshake-init cbor strerror serializes p p' holds
                  process_response_fd_callback tid e ans refl
                  (process_response_fd_callback-connects r new more next ne unused pipes named' refl
                    wide)
                  w)
                (thread_create_handshake-connects cbor strerror serializes q q' holds' d8 t t rest
                  named8 refl wide refl there refl)),
      unfold connecting in simp append_assoc,
      refl,
      refl,
      change_thread-only t d.threads (λ v. record v { request_pipe = q })
          (λ v. record v {
            request_pipe = q';
            response_output = init_answer cbor d.multithread_capable tid;
          })
          none_yet refl,
    )
