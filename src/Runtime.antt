-- ===== src/Runtime.antt =====
-- The event loop of libudirt/src/udirt-posix.c: waiting for requests from the debugger and executing
-- them. `selects` is what the calls of `select` bring, one after another; when it is used up, the
-- process blocks there for good, which is `stuck`.
pub mod Wait
use udi.Cmd.{Cmd, Run, ok, fault, stuck, pure, ◌>>=◌, ◌>>◌}
use udi.Format.{ℤ}
use udi.Machine.{Ptr, null, Machine}
use udi.Msg.{Cbor}
use udi.Msg.Debuggee.{Status, success, error, failure, Thread, Debuggee, set_message}
use udi.Msg.Process.{handle_process_request}
use udi.Msg.Thread.{find_thread, change_thread, handle_thread_request}
use udi.Msg.Write.{udi_req_invalid, udi_req_continue}
use udi.X86.{Instruction}
use udi.Prelude.{
  ℕ, zero, suc, Bool, true, false, not, ◌&&◌, ◌||◌, Option, none, some, List, [], ◌∷◌, ◌==◌,
  if◌then◌else◌, length,
}

-- What `select` returns: EINTR, another failure, no handle, or whether the request handle of the
-- process is ready, and the threads whose request handles are.
pub data Select : Type 0 where
  interrupted failed none_ready : Select
  ready : Bool → List Ptr → Select

pub record Process : Type 0 where
  pub debuggee : Debuggee
  pub selects : List Select

abbrev on_run : {A : Type 0} → Process → Run Debuggee A → Run Process A
on_run p (ok a d) = ok a (record p { debuggee = d })
on_run p fault = fault
on_run p stuck = stuck

abbrev pub on_debuggee : {A : Type 0} → Cmd Debuggee A → Cmd Process A
on_debuggee f p = on_run p (f p.debuggee)

abbrev is_member : Ptr → List Ptr → Bool
is_member q [] = false
is_member q (p ∷ ps) = (p == q) || is_member q ps

-- The first thread of the list whose handle is in the set that `select` was given, which has no dead
-- threads, and in what it returned; NULL if there is none.
pub first_ready : List Thread → List Ptr → Ptr
first_ready [] set = null
first_ready (t ∷ ts) set = if not t.dead && is_member t.self set then t.self else first_ready ts set

select_result : Ptr → Bool → Ptr → Status × Ptr
select_result thr true iter = (success, null)
select_result thr false iter = if iter == null then (error, thr) else (success, iter)

-- The loop around `select`.
select_loop : Ptr → List Select → Cmd Process (Status × Ptr)
select_loop thr [] p = stuck
select_loop thr (interrupted ∷ later) p = select_loop thr later p
select_loop thr (failed ∷ later) p = ok (error, thr) (record p { selects = later })
select_loop thr (none_ready ∷ later) p = ok (error, thr) (record p { selects = later })
select_loop thr (ready process set ∷ later) p =
    ok (select_result thr process (first_ready p.debuggee.threads set))
      (record p { selects = later })

-- The status, and `*thr`, which was `thr`.
pub block_for_request : Ptr → Cmd Process (Status × Ptr)
block_for_request thr p = select_loop thr p.selects p

-- The result of a request on a thread's pipes: they go back to the thread.
abbrev pub from_thread : {A : Type 0} → Ptr → Debuggee → Run Debuggee A → Run Debuggee A
from_thread thr d (ok a d') = ok a (record d' {
  pipe = d.pipe;
  output = d.output;
  threads =
      change_thread thr (λ t. record t { request_pipe = d'.pipe; response_output = d'.output })
        d'.threads;
})
from_thread thr d fault = fault
from_thread thr d stuck = stuck

unfoldable pub on_pipes_of : {A : Type 0} → Ptr → Cmd Debuggee A → Option Thread → Cmd Debuggee A
on_pipes_of thr f none d = fault
on_pipes_of thr f (some t) d =
    from_thread thr d (f (record d { pipe = t.request_pipe; output = t.response_output }))

-- A function that is given the handles of a thread.
unfoldable pub on_thread : {A : Type 0} → Ptr → Cmd Debuggee A → Cmd Debuggee A
on_thread thr f d = on_pipes_of thr f (find_thread thr d.threads) d

-- Whether the loop goes on after a request.
pub more_reqs : Status → ℕ → Bool
more_reqs error type = false
more_reqs result type = not (type == udi_req_continue)

module _ (cbor : Cbor) (disassemble : Machine → ℕ → Option Instruction)
    (strerror : ℤ → List ℕ) where
  -- One request, of the process or of a thread.
  pub execute : Ptr → Cmd Process (Status × ℕ)
  execute thr = on_debuggee (
      if thr == null
      then handle_process_request cbor strerror udi_req_invalid
      else on_thread thr (handle_thread_request cbor disassemble strerror thr udi_req_invalid))

  after_request : (Ptr → Cmd Process (Status × Ptr)) → Ptr → Status × ℕ → Cmd Process (Status × Ptr)
  after_request again thr (result, type) =
      if more_reqs result type then again thr else pure (result, thr)

  pub after_block : (Ptr → Cmd Process (Status × Ptr)) → Status × Ptr → Cmd Process (Status × Ptr)
  after_block again (success, thr) = do executed ← execute thr; after_request again thr executed
  after_block again (status, thr) = do
    on_debuggee (set_message "failed to wait for request" [])
    pure (error, thr)

  wait_loop : ℕ → Ptr → Cmd Process (Status × Ptr)
  wait_loop zero thr = λ _. stuck
  wait_loop (suc k) thr = do blocked ← block_for_request thr; after_block (wait_loop k) blocked

  -- One round more than there are outcomes of `select` is always enough.
  pub wait_and_execute_command : Ptr → Cmd Process (Status × Ptr)
  wait_and_execute_command thr p = wait_loop (suc (length p.selects)) thr p
