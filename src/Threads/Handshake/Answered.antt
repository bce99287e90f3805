-- ===== src/Threads/Handshake/Answered.antt =====
-- The handshake of a debugger that answers on the pipes of one thread.
use udi.Cmd.{Cmd, ok}
use udi.Files.{FileCall, open_read, open_write}
use udi.Format.{ℤ}
use udi.Machine.{Ptr}
use udi.Msg.{Cbor, Item, uint16_item}
use udi.Msg.Debuggee.{Status, success, error, Thread, Debuggee}
use udi.Msg.Files.{request_file_name, response_file_name, attempt}
use udi.Msg.Files.Named.{
  doing, IsNamed, attempt_or-doing, with_thread_dir-named, with_thread_file-named,
}
use udi.Msg.Init.{init_data, perform_init_handshake}
use udi.Msg.Init.Handshake.{perform_init_handshake-answers}
use udi.Msg.Read.{Pipe}
use udi.Msg.Thread.{find_thread, change_thread}
use udi.Msg.Thread.Suspend.{find_thread-changed}
use udi.Msg.Write.{read_request_type, udi_req_invalid, udi_req_init, udi_resp_valid}
use udi.Msg.Write.Responses.{sent}
use udi.Paths.Whole.{within, thread_dir_of}
use udi.Runtime.{on_thread, on_pipes_of}
use udi.Threads.Handshake.{
  with_request, open_request, thread_create_response_fd_callback, set_request_pipe, open_or,
  thread_create_handshake,
}
use udi.Prelude.{ℕ, ◌^◌, ◌<◌, ◌≡◌, ◌≢◌, refl, ◌∙◌, Bool, some, List, [], ◌∷◌, ◌++◌, String, arith}

pub open_or-doing :
    (call : FileCall) (format : String) (next : Cmd Debuggee Status) (e : Debuggee)
    → e.files.outcomes ≡ []
    → open_or call format next e ≡ next (doing e call)
unfolding open_or attempt
open_or-doing call format next e works = rw works refl

-- What a function on the pipes of a thread does.
pub on_thread-lem :
    {A : Type 0} (thr : Ptr) (f : Cmd Debuggee A) (e e' : Debuggee) (t : Thread) (a : A)
    → find_thread thr e.threads ≡ some t
    → f (record e { pipe = t.request_pipe; output = t.response_output }) ≡ ok a e'
    → on_thread thr f e
      ≡ ok a (record e' {
        pipe = e.pipe;
        output = e.output;
        threads =
            change_thread thr
              (λ u. record u { request_pipe = e'.pipe; response_output = e'.output })
              e'.threads;
      })
unfolding on_thread on_pipes_of
on_thread-lem thr f e e' t a there runs = rw there (rw runs refl)

-- A pipe that holds an init request, and what is behind it.
unfoldable pub HoldsInit : Cbor → Pipe → Pipe → Type 0
HoldsInit cbor p p' =
    (e : Debuggee)
    → e.pipe ≡ p
    → read_request_type cbor udi_req_invalid e ≡ ok (success, udi_req_init) (record e { pipe = p' })

-- The bytes of the answer to an init request.
pub init_answer : Cbor → Bool → ℕ → List ℕ
init_answer cbor mt tid =
    cbor.cbor_serialize (uint16_item udi_resp_valid)
    ++ (cbor.cbor_serialize (uint16_item udi_req_init) ++ cbor.cbor_serialize (init_data mt tid))

module _ (cbor : Cbor) (strerror : ℤ → List ℕ)
    (serializes : (item : Item) → cbor.cbor_serialize item ≢ []) (p p' : Pipe)
    (holds : HoldsInit cbor p p') where
  -- The handshake on a pipe that holds an init request, where the callback opens the response pipe.
  pub perform_init_handshake-init :
      (callback : Cmd Debuggee Status) (tid : ℕ) (e e' : Debuggee)
      → e.pipe ≡ p
      → callback (record e { pipe = p' }) ≡ ok success e'
      → e'.write_errors ≡ []
      → perform_init_handshake cbor strerror callback tid e
        ≡ ok success (sent e' (init_answer cbor e'.multithread_capable tid))
  unfolding HoldsInit init_answer
  perform_init_handshake-init callback tid e e' at opens w =
      perform_init_handshake-answers cbor strerror callback tid udi_req_init e
        (record e { pipe = p' }) e' serializes (holds e at) opens w

  module _ (e : Debuggee) (t u : Thread) (rest : List Pipe) (named : IsNamed e.files)
      (works : e.files.outcomes ≡ []) (wide : t.id < 2 ^ 64)
      (requests : e.files.requests ≡ p ∷ rest) (there : find_thread t.self e.threads ≡ some u)
      (w : e.write_errors ≡ []) where
    abbrev dir : List ℕ
    dir = thread_dir_of e.files.basedir_name t.id

    -- With the request pipe.
    abbrev opened : Debuggee
    opened = record e {
      files = record e.files {
        outcomes = [];
        done = e.files.done ++ (open_read (within dir request_file_name) ∷ []);
        requests = rest;
      };
      threads = change_thread t.self (λ v. record v { request_pipe = p }) e.threads;
    }

    abbrev inside : Debuggee
    inside =
        doing (record opened { pipe = p'; output = u.response_output })
          (open_write (within dir response_file_name))

    abbrev answered : Debuggee
    answered = sent inside (init_answer cbor e.multithread_capable t.id)

    abbrev pub connected : Debuggee
    connected = record answered {
      pipe = e.pipe;
      output = e.output;
      threads =
          change_thread t.self
            (λ v. record v { request_pipe = p'; response_output = answered.output })
            answered.threads;
    }

    pub thread_create_handshake-connects :
        thread_create_handshake cbor strerror t e ≡ ok success connected
    unfolding thread_create_handshake open_request with_request set_request_pipe
        thread_create_response_fd_callback
    thread_create_handshake-connects =
        with_thread_dir-named error t.id _ e named wide
        ∙ (with_thread_file-named error t.id response_file_name _ e named wide refl (omega arith)
            ∙ (with_thread_file-named error t.id request_file_name _ e named wide refl (omega arith)
                ∙ (attempt_or-doing error (open_read (within dir request_file_name)) _
                      (within dir request_file_name) _ e works
                    ∙ rw requests (
                        on_thread-lem t.self _ opened answered (record u { request_pipe = p })
                          success
                          (find_thread-changed e t.self u (λ v. record v { request_pipe = p })
                            (λ v. refl) there)
                          (perform_init_handshake-init _ t.id
                            (record opened { pipe = p; output = u.response_output }) inside refl
                            (attempt_or-doing error (open_write (within dir response_file_name)) _
                              (within dir response_file_name) _
                              (record opened { pipe = p'; output = u.response_output }) refl)
                            w)))))
