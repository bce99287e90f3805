-- ===== src/Barrier/Answers.antt =====
-- How the threads that were sent the suspend signal answer: `signal_entry` stores the signal and the
-- context in the structure of the thread before `block_other_threads` writes the sentinel, and the
-- suspend flag after it (udirt-posix.c).
use udi.Barrier.{
  sentinel, thread_suspend_signal, Read, got, Barrier, threads_of, with_threads, read_sentinels,
  read_sentinel, sentinel_loop,
}
use udi.Cmd.{ok}
use udi.Machine.{Ptr}
use udi.Msg.Debuggee.{Thread}
use udi.Msg.Thread.{change_thread}
use udi.Register.{Context}
use udi.Prelude.{◌≡◌, refl, Bool, true, List, [], ◌∷◌, ◌++◌, length, map}

-- The thread, the context that the signal interrupted, and its suspend flag at the time.
pub record Answer : Type 0 where
  pub thread : Ptr
  pub context : Context
  pub suspend_pending : Bool

abbrev pub stored : Answer → Thread → Thread
stored a t = record t {
  signal = thread_suspend_signal;
  context = a.context;
  context_valid = true;
  suspend_pending = a.suspend_pending;
}

-- The threads after the answers.
unfoldable pub answered : List Answer → List Thread → List Thread
answered [] ts = ts
answered (a ∷ rs) ts = answered rs (change_thread a.thread (stored a) ts)

abbrev pub answer : Answer → Read
answer a = got sentinel λ s. record s {
  debuggee = record s.debuggee { threads = change_thread a.thread (stored a) s.debuggee.threads };
}

-- What is read of them.
abbrev pub answers : List Answer → List Read
answers rs = map answer rs

pub read_sentinels-answers :
    (rs : List Answer) (later : List Read) (b : Barrier)
    → b.reads ≡ answers rs ++ later
    → read_sentinels (length rs) b
      ≡ ok tt (record (with_threads (answered rs (threads_of b)) b) { reads = later })
unfolding read_sentinels read_sentinel sentinel_loop answered
read_sentinels-answers [] later b e = rw (← e) refl
read_sentinels-answers (a ∷ rs) later b e = rw e (
    read_sentinels-answers rs later
      (record (with_threads (change_thread a.thread (stored a) (threads_of b)) b) {
        reads = answers rs ++ later;
      })
      refl)
