-- ===== src/Msg/Thread/Suspend.antt =====
-- The suspend and resume requests.
use mathlib.Core.Option
use udi.Cmd.{ok}
use udi.Msg.{Cbor, Item, uint16_item}
use udi.Msg.Debuggee.{success, running, suspended, Thread, Debuggee}
use udi.Msg.Thread.{
  find_thread, change_thread, found, thread_at, set_thread, with_threads, thr_suspend_handler,
  thr_resume_handler,
}
use udi.Msg.Write.{
  write_response_no_data, udi_resp_valid, udi_req_thread_suspend, udi_req_thread_resume,
}
use udi.Msg.Write.Responses.{sent, write_response-sent}
use udi.Machine.{Ptr, Machine}
use udi.X86.{Instruction}
use udi.Prelude.{
  ℕ, ◌≡◌, ◌≢◌, refl, Option, none, some, List, [], ◌∷◌, ◌++◌, arith, ◌==◌, if◌then◌else◌, ==_refl,
}

abbrev pub suspend : Thread → Thread
suspend t = record t { ts = suspended }

abbrev pub resume : Thread → Thread
resume t = record t { ts = running }

-- A change that keeps the address of the structure changes the thread there and no other.
pub find_thread-change_thread :
    (self other : Ptr) (f : Thread → Thread) (ts : List Thread)
    → ((t : Thread) → Thread.self (f t) ≡ t.self)
    → find_thread other (change_thread self f ts)
      ≡ (if self == other then Option.map f (find_thread other ts) else find_thread other ts)
unfolding find_thread change_thread
find_thread-change_thread self other f [] keep = ground arith
find_thread-change_thread self other f (t ∷ ts) keep =
    ground (arith, keep t, find_thread-change_thread self other f ts keep)

-- A thread that is there is read, before and after a change that keeps its address.
pub thread_at-lem :
    (d : Debuggee) (thr : Ptr) (t : Thread)
    → find_thread thr d.threads ≡ some t
    → thread_at thr d ≡ ok t d
unfolding thread_at found
thread_at-lem d thr t e = rw e refl

pub find_thread-changed :
    (d : Debuggee) (thr : Ptr) (t : Thread) (f : Thread → Thread)
    → ((u : Thread) → Thread.self (f u) ≡ u.self)
    → find_thread thr d.threads ≡ some t
    → find_thread thr (change_thread thr f d.threads) ≡ some (f t)
find_thread-changed d thr t f keep e =
    rw (find_thread-change_thread thr thr f d.threads keep, ==_refl thr, e) refl

-- `d` with the thread at `thr` changed, and a response of type `req_type` without data.
abbrev pub answered : Cbor → Debuggee → Ptr → (Thread → Thread) → ℕ → Debuggee
answered cbor d thr f req_type = sent (with_threads (change_thread thr f) d) (
    cbor.cbor_serialize (uint16_item udi_resp_valid)
    ++ (cbor.cbor_serialize (uint16_item req_type) ++ []))

-- With a response pipe whose writes succeed, the suspend and the resume request of a thread of the list
-- are answered by the type of a valid response and by their own type, without a third item; they
-- set the state of that thread, leave the rest of it and every other thread as it was, and change
-- nothing else.
pub suspend-resume :
    (cbor : Cbor) (disassemble : Machine → ℕ → Option Instruction) (d : Debuggee) (thr : Ptr)
    (t : Thread)
    → ((item : Item) → cbor.cbor_serialize item ≢ [])
    → d.write_errors ≡ []
    → find_thread thr d.threads ≡ some t
    → (thr_suspend_handler cbor disassemble thr d
        ≡ ok success (answered cbor d thr suspend udi_req_thread_suspend))
      × (thr_resume_handler cbor disassemble thr d
          ≡ ok success (answered cbor d thr resume udi_req_thread_resume))
      × ((other : Ptr)
          → (find_thread other (change_thread thr suspend d.threads) ≡ (
              if thr == other
              then Option.map suspend (find_thread other d.threads)
              else find_thread other d.threads))
            × (find_thread other (change_thread thr resume d.threads) ≡ (
                if thr == other
                then Option.map resume (find_thread other d.threads)
                else find_thread other d.threads)))
unfolding thr_suspend_handler thr_resume_handler set_thread with_threads write_response_no_data
suspend-resume cbor disassemble d thr t serializes e there = (
  rw (thread_at-lem d thr t there) (
      write_response-sent cbor serializes (with_threads (change_thread thr suspend) d)
        udi_resp_valid udi_req_thread_suspend none e),
  rw (thread_at-lem d thr t there) (
      write_response-sent cbor serializes (with_threads (change_thread thr resume) d) udi_resp_valid
        udi_req_thread_resume none e),
  λ other. (
    find_thread-change_thread thr other suspend d.threads (λ t. refl),
    find_thread-change_thread thr other resume d.threads (λ t. refl),
  ),
)
