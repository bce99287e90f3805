-- ===== src/Msg/Init/Handshake.antt =====
-- What the init handshake answers.
use udi.Cmd.{Cmd, ok, pure, ◌>>=◌, ◌>>◌}
use udi.Format.{ℤ, text}
use udi.Msg.{Cbor, Item, uint16_item}
use udi.Msg.Debuggee.{Status, success, error, Debuggee, set_message}
use udi.Msg.Init.{
  init_handler, answer_init, open_and_answer, after_type, perform_init_handshake, init_data,
  request_type_str,
}
use udi.Msg.Write.{
  read_request_type, write_error_response, udi_req_invalid, udi_req_init, udi_resp_valid,
}
use udi.Msg.Write.Responses.{sent, write_response-sent}
use udi.Prelude.{
  ℕ, ◌≡◌, ◌≢◌, refl, some, List, [], ◌∷◌, ◌++◌, codes, ◌==◌, if◌then◌else◌, Bool-cases, inl, inr,
}

-- With a serializer that gives bytes for every item, where a request is read, the response pipe is
-- opened and it takes what is written: if the request is of the init type, the handshake succeeds, and
-- exactly the valid response type, the type of the init request, and the map of the version, the
-- architecture, whether threads are possible and the thread's id are written, and nothing else
-- changes; if it is of another type, the handshake is an error, and what it does is to answer by an
-- error response with that type and a message that names it.
pub perform_init_handshake-answers :
    (cbor : Cbor) (strerror : ℤ → List ℕ) (callback : Cmd Debuggee Status) (tid req_type : ℕ)
    (d d' d'' : Debuggee)
    → ((item : Item) → cbor.cbor_serialize item ≢ [])
    → read_request_type cbor udi_req_invalid d ≡ ok (success, req_type) d'
    → callback d' ≡ ok success d''
    → d''.write_errors ≡ []
    → perform_init_handshake cbor strerror callback tid d ≡ (
        if req_type == udi_req_init
        then ok success (
            sent d'' (
              cbor.cbor_serialize (uint16_item udi_resp_valid)
              ++ (cbor.cbor_serialize (uint16_item udi_req_init)
                  ++ cbor.cbor_serialize (init_data d''.multithread_capable tid))))
        else (do
          set_message "received invalid request type(%s) as init request"
              (text (codes (request_type_str req_type)) ∷ [])
          _ ← write_error_response cbor strerror req_type
          pure error)
            d'')
unfolding perform_init_handshake after_type open_and_answer answer_init init_handler
perform_init_handshake-answers cbor strerror callback tid req_type d d' d'' ser e c w =
    elim (Bool-cases (req_type == udi_req_init)) [
      | inl i ↦
          rw (e, c, i)
            (write_response-sent cbor ser d'' udi_resp_valid udi_req_init
              (some (init_data d''.multithread_capable tid)) w)
      | inr n ↦ rw (e, c, n) refl
    ]
