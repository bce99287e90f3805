-- ===== src/Msg/Process/Dispatch.antt =====
-- How a request for the process reaches its handler, and what comes back.
use udi.Cmd.{Run, stuck, and_then, Cmd, ok, fault, pure, ◌>>=◌, ◌>>◌}
use udi.Format.{ℤ}
use udi.Machine.{set_errmsg}
use udi.Msg.{Cbor}
use udi.Msg.Debuggee.{Status, success, error, failure, Debuggee, set_message}
use udi.Msg.Process.{
  request_handlers, dispatch, run_handler, invalid_handler, handle_process_request,
  continue_handler, read_handler, write_handler, state_handler, breakpoint_create_handler,
  breakpoint_install_handler, breakpoint_remove_handler, breakpoint_delete_handler,
}
use udi.Msg.Write.{
  udi_req_continue, udi_req_read_mem, udi_req_write_mem, udi_req_state, udi_req_create_breakpoint,
  udi_req_install_breakpoint, udi_req_remove_breakpoint, udi_req_delete_breakpoint,
  read_request_type, write_error_response, handle_request, handle_type, respond_to_error, worse,
}
use udi.Prelude.{
  ◌∙◌, Bool, true, false, ◌==◌, ◌||◌, ltb, if◌then◌else◌, zero, ℕ, suc, ◌≡◌, refl, List, [], ◌∷◌,
  arith, get_elem?,
}

-- The requests that docs/PROTOCOL.md has for the process.
abbrev pub process_requests : List ℕ
process_requests =
    udi_req_continue ∷ udi_req_read_mem ∷ udi_req_write_mem ∷ udi_req_state
    ∷ udi_req_create_breakpoint ∷ udi_req_install_breakpoint ∷ udi_req_remove_breakpoint
    ∷ udi_req_delete_breakpoint ∷ []

abbrev pub is_one_of : ℕ → List ℕ → Bool
is_one_of n [] = false
is_one_of n (m ∷ ms) = (n == m) || is_one_of n ms

module _ (cbor : Cbor) where
  -- The handlers by the names of the requests.
  unfoldable pub handler_for : ℕ → Cmd Debuggee Status
  handler_for req_type =
      if req_type == udi_req_continue
      then continue_handler cbor
      else if req_type == udi_req_read_mem
      then read_handler cbor
      else if req_type == udi_req_write_mem
      then write_handler cbor
      else if req_type == udi_req_state
      then state_handler cbor
      else if req_type == udi_req_create_breakpoint
      then breakpoint_create_handler cbor
      else if req_type == udi_req_install_breakpoint
      then breakpoint_install_handler cbor
      else if req_type == udi_req_remove_breakpoint
      then breakpoint_remove_handler cbor
      else breakpoint_delete_handler cbor

  -- What a handler that failed is followed by: an error response, whose failure makes a failure an error.
  unfoldable pub concluded : (ℤ → List ℕ) → Status × ℕ → Cmd Debuggee (Status × ℕ)
  concluded strerror (success, req_type) = pure (success, req_type)
  concluded strerror (error, req_type) = do
    _ ← write_error_response cbor strerror req_type
    pure (error, req_type)
  concluded strerror (failure, req_type) = do
    error_result ← write_error_response cbor strerror req_type
    pure (elim error_result [ success ↦ failure | error ↦ error | failure ↦ failure ], req_type)

  concluded-respond_to_error :
      (strerror : ℤ → List ℕ) (handled : Status × ℕ) (d : Debuggee)
      → respond_to_error cbor strerror handled d ≡ concluded strerror handled d
  unfolding concluded respond_to_error
  concluded-respond_to_error strerror (success, req_type) d = refl
  concluded-respond_to_error strerror (error, req_type) d = refl
  concluded-respond_to_error strerror (failure, req_type) d =
      and_then-agree (write_error_response cbor strerror req_type d)
    where
      and_then-agree :
          (r : Run Debuggee Status)
          → and_then {B = Status × ℕ} r (λ a. pure (worse failure a, req_type))
            ≡ and_then {B = Status × ℕ} r (λ a.
              pure (elim a [ success ↦ failure | error ↦ error | failure ↦ failure ], req_type))
      and_then-agree (ok success s) = refl
      and_then-agree (ok error s) = refl
      and_then-agree (ok failure s) = refl
      and_then-agree fault = refl
      and_then-agree stuck = refl

  -- What the process is to do once the type of a request is read.
  unfoldable pub handled_as : (ℤ → List ℕ) → ℕ → Cmd Debuggee (Status × ℕ)
  handled_as strerror req_type =
      if ltb 15 req_type
      then (λ _. fault)
      else if is_one_of req_type process_requests
      then (do
        handled ← (do result ← handler_for req_type; pure (result, req_type))
        concluded strerror handled)
      else (do
        set_message "invalid request for process" []
        _ ← write_error_response cbor strerror req_type
        pure (error, req_type))

  dispatched :
      (strerror : ℤ → List ℕ) (req_type : ℕ) (d : Debuggee)
      → (do
        handled ←
            handle_type
              (λ type. dispatch cbor (get_elem? request_handlers type))
              (success, req_type)
        concluded strerror handled)
          d
        ≡ handled_as strerror req_type d
  unfolding handled_as handler_for dispatch run_handler request_handlers invalid_handler concluded
      set_message set_errmsg handle_type
  dispatched strerror zero d = refl
  dispatched strerror (suc zero) d = refl
  dispatched strerror (suc (suc zero)) d = refl
  dispatched strerror (suc (suc (suc zero))) d = refl
  dispatched strerror (suc (suc (suc (suc zero)))) d = refl
  dispatched strerror (suc (suc (suc (suc (suc zero))))) d = refl
  dispatched strerror (suc (suc (suc (suc (suc (suc zero)))))) d = refl
  dispatched strerror (suc (suc (suc (suc (suc (suc (suc zero))))))) d = refl
  dispatched strerror (suc (suc (suc (suc (suc (suc (suc (suc zero)))))))) d = refl
  dispatched strerror (suc (suc (suc (suc (suc (suc (suc (suc (suc zero))))))))) d = refl
  dispatched strerror (suc (suc (suc (suc (suc (suc (suc (suc (suc (suc zero)))))))))) d = refl
  dispatched strerror (suc (suc (suc (suc (suc (suc (suc (suc (suc (suc (suc zero))))))))))) d =
      refl
  dispatched strerror (suc (suc (suc (suc (suc (suc (suc (suc (suc (suc (suc (suc zero))))))))))))
        d =
      refl
  dispatched strerror
        (suc (suc (suc (suc (suc (suc (suc (suc (suc (suc (suc (suc (suc zero))))))))))))) d =
      refl
  dispatched strerror
        (suc (suc (suc (suc (suc (suc (suc (suc (suc (suc (suc (suc (suc (suc zero)))))))))))))) d =
      refl
  dispatched strerror
        (suc
          (suc (suc (suc (suc (suc (suc (suc (suc (suc (suc (suc (suc (suc (suc zero)))))))))))))))
        d =
      refl
  dispatched strerror
        (suc (
          suc
            (suc (suc (suc (suc (suc (suc (suc (suc (suc (suc (suc (suc (suc (suc n))))))))))))))))
        d =
      rw beyond refl
    where
      beyond :
          ltb 15 (
            suc (
              suc (
                suc
                  (suc (suc (suc (suc (suc (suc (suc (suc (suc (suc (suc (suc (suc n))))))))))))))))
          ≡ true
      beyond = ground arith

-- Once the type of a request is read, it is handled by what the protocol has under that type: the requests
-- of the process by their handlers, and with an error response if the handler fails; those of the
-- invalid type, the registers, the init handshake and the threads by an error response with that type
-- and the message of the invalid handler, and the result is an error whether or not the response can
-- be written; and a type of 16 or more makes the code index its table out of bounds.
pub handle_process_request-handled_as :
    (cbor : Cbor) (strerror : ℤ → List ℕ) (before req_type : ℕ) (d d' : Debuggee)
    → read_request_type cbor before d ≡ ok (success, req_type) d'
    → handle_process_request cbor strerror before d ≡ handled_as cbor strerror req_type d'
unfolding handle_process_request handle_request
handle_process_request-handled_as cbor strerror before req_type d d' e = rw e (
    after
      (handle_type (λ type. dispatch cbor (get_elem? request_handlers type)) (success, req_type) d')
    ∙ dispatched cbor strerror req_type d')
  where
    after :
        (r : Run Debuggee (Status × ℕ))
        → and_then r (respond_to_error cbor strerror) ≡ and_then r (concluded cbor strerror)
    after (ok handled s) = concluded-respond_to_error cbor strerror handled s
    after fault = refl
    after stuck = refl
