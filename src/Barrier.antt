-- ===== src/Barrier.antt =====
-- The barrier of libudirt/src/udirt-posix.c that stops the other threads while one handles an event:
-- `block_other_threads` and `release_other_threads`, as the thread runs them that calls them. What
-- other threads do while it waits comes with what it then reads. The outcomes of `pthread_kill` and of
-- writes to the control pipes are lists that calls use up, an `errno` each, 0 for success; an
-- empty list means success. An empty list of reads is a wait without end, `stuck`.
pub mod Answers
pub mod Round
pub mod Complete
pub mod Exclusive
use udi.Cmd.{Cmd, ok, fault, stuck, pure, ◌>>=◌, ◌>>◌}
use udi.Machine.{Ptr}
use udi.Msg.Debuggee.{ThreadState, running, suspended, Thread, Debuggee}
use udi.Msg.Thread.{find_thread, change_thread}
use udi.Prelude.{
  ℕ, zero, suc, ◌+◌, Bool, true, false, not, ◌&&◌, ◌||◌, Option, none, some, List, [], ◌∷◌, ◌++◌,
  map, ◌==◌, ltb, if◌then◌else◌,
}

abbrev pub sentinel : ℕ
sentinel = 0x21

-- `THREAD_SUSPEND_SIGNAL`, SIGSYS
abbrev pub thread_suspend_signal : ℕ
thread_suspend_signal = 31

-- What threads share: `debuggee`, and `sync_var` of the barrier.
pub record Shared : Type 0 where
  pub debuggee : Debuggee
  pub sync_var : ℕ

-- What `read` of one byte brings: a byte, with what other threads did before it came; the end of
-- file; EINTR; another failure.
pub data Read : Type 0 where
  got : ℕ → (Shared → Shared) → Read
  end_of_file interrupted failed : Read

pub record Barrier : Type 0 where
  pub shared : Shared
  pub kills : List ℕ
  pub writes : List ℕ
  pub reads : List Read
  -- the threads that were sent the suspend signal, and those that were sent a sentinel
  pub signalled : List Ptr
  pub released : List Ptr
  -- the number of sentinels written to the barrier
  pub triggers : ℕ

-- What `block_other_threads` returns: -1, 0 and 1.
pub data Blocked : Type 0 where
  block_failed in_control waited : Blocked

abbrev first : List ℕ → ℕ
first [] = 0
first (n ∷ ns) = n

abbrev others : List ℕ → List ℕ
others [] = []
others (n ∷ ns) = ns

-- A thread by its id.
unfoldable pub thread_of_id : ℕ → List Thread → Option Thread
thread_of_id tid [] = none
thread_of_id tid (t ∷ ts) = if t.id == tid then some t else thread_of_id tid ts

abbrev pub threads_of : Barrier → List Thread
threads_of b = b.shared.debuggee.threads

abbrev pub get_current_thread : Barrier → Option Thread
get_current_thread b = thread_of_id b.shared.debuggee.user_thread_id (threads_of b)

abbrev pub with_threads : List Thread → Barrier → Barrier
with_threads ts b = record b {
  shared = record b.shared { debuggee = record b.shared.debuggee { threads = ts } };
}

abbrev set_thread : Ptr → (Thread → Thread) → Cmd Barrier (Unit {0})
set_thread thr f b = ok tt (with_threads (change_thread thr f (threads_of b)) b)

-- The loop of `read_sentinel`; all that is not the sentinel aborts.
sentinel_loop : List Read → Cmd Barrier (Unit {0})
sentinel_loop [] b = stuck
sentinel_loop (interrupted ∷ later) b = sentinel_loop later b
sentinel_loop (end_of_file ∷ later) b = fault
sentinel_loop (failed ∷ later) b = fault
sentinel_loop (got trigger meanwhile ∷ later) b =
    if trigger == sentinel
    then ok tt (record b { shared = meanwhile b.shared; reads = later })
    else fault

pub read_sentinel : Cmd Barrier (Unit {0})
read_sentinel b = sentinel_loop b.reads b

-- One `read`, of which only the sentinel does not abort.
pub read_trigger_in : List Read → Cmd Barrier (Unit {0})
read_trigger_in [] b = stuck
read_trigger_in (got trigger meanwhile ∷ later) b =
    if trigger == sentinel
    then ok tt (record b { shared = meanwhile b.shared; reads = later })
    else fault
read_trigger_in (_ ∷ later) b = fault

read_trigger : Cmd Barrier (Unit {0})
read_trigger b = read_trigger_in b.reads b

pub read_sentinels : ℕ → Cmd Barrier (Unit {0})
read_sentinels zero = pure tt
read_sentinels (suc n) = do read_sentinel; read_sentinels n

pthread_kill : Ptr → Cmd Barrier (Unit {0})
pthread_kill thr b =
    if first b.kills == 0
    then ok tt (record b { kills = others b.kills; signalled = b.signalled ++ (thr ∷ []) })
    else fault

-- To the control pipe of a thread.
write_control : Ptr → Cmd Barrier (Unit {0})
write_control thr b =
    if first b.writes == 0
    then ok tt (record b { writes = others b.writes; released = b.released ++ (thr ∷ []) })
    else fault

write_trigger : Cmd Barrier (Unit {0})
write_trigger b =
    if first b.writes == 0
    then ok tt (record b { writes = others b.writes; triggers = b.triggers + 1 })
    else fault

abbrev pub is_running : ThreadState → Bool
is_running running = true
is_running suspended = false

-- The loop over the threads: how many were signalled.
suspend_others : Ptr → List Thread → Cmd Barrier ℕ
suspend_others thr [] = pure 0
suspend_others thr (t ∷ ts) = if t.self == thr then suspend_others thr ts else do
  set_thread t.self (λ u. record u { control_thread = false })
  if is_running t.ts
      then (do pthread_kill t.self; n ← suspend_others thr ts; pure (suc n))
      else suspend_others thr ts

set_sync_var : ℕ → Cmd Barrier (Unit {0})
set_sync_var n b = ok tt (record b { shared = record b.shared { sync_var = n } })

take_control : Ptr → Cmd Barrier (Unit {0})
take_control thr b =
    (do
      set_sync_var 1
      set_thread thr (λ t. record t { control_thread = true })
      n ← suspend_others thr (threads_of b)
      read_sentinels n)
      b

await_release : Thread → Cmd Barrier (Unit {0})
await_release thr = do
  write_trigger
  set_thread thr.self (λ t. record t { suspend_pending = not (t.signal == thread_suspend_signal) })
  read_sentinel

control_of : Option Thread → Cmd Barrier Blocked
control_of none = λ _. fault
control_of (some t) = pure (if t.control_thread then in_control else waited)

-- Once the thread is known.
block_in : Option Thread → Cmd Barrier Blocked
block_in none b = ok block_failed b
block_in (some thr) b =
    (do
      if b.shared.sync_var == 0 then take_control thr.self else await_release thr
      λ b'. control_of (find_thread thr.self (threads_of b')) b')
      b

pub block_other_threads : Cmd Barrier Blocked
block_other_threads b =
    if b.shared.debuggee.multithread_capable && ltb 1 b.shared.debuggee.num_threads
    then block_in (get_current_thread b) b
    else ok in_control b

-- An event of a thread that waits to be handled.
unfoldable pub event_pending : Thread → Bool
event_pending t =
    (not (t.signal == thread_suspend_signal) && not (t.signal == 0)) || t.stack_event_pending

abbrev self_of : Option Thread → Ptr
self_of none = 0
self_of (some t) = t.self

-- The first thread but `thr` with such an event.
unfoldable pub find_pending : Ptr → List Thread → Option Thread
find_pending thr [] = none
find_pending thr (t ∷ ts) =
    if not (t.self == thr) && event_pending t then some t else find_pending thr ts

transfer : Option Thread → Thread → Cmd Barrier (Unit {0})
transfer none iter = do
  set_thread iter.self (λ t. record t { control_thread = true })
  write_control iter.self
transfer (some thr) iter = do
  set_thread thr.self (λ t. record t { control_thread = false })
  set_thread iter.self (λ t. record t { control_thread = true })
  write_control iter.self
  read_trigger

wake_others : Ptr → List Thread → Cmd Barrier (Unit {0})
wake_others thr [] = pure tt
wake_others thr (t ∷ ts) =
    if not (t.self == thr) && is_running t.ts
    then (do write_control t.self; wake_others thr ts)
    else wake_others thr ts

-- A thread that was suspended while it had control waits itself.
wait_if_suspended : Option Thread → Cmd Barrier (Unit {0})
wait_if_suspended none = pure tt
wait_if_suspended (some thr) = if is_running thr.ts then pure tt else read_sentinel

clear_sync_var : Cmd Barrier (Unit {0})
clear_sync_var b = set_sync_var (if b.shared.sync_var == 1 then 0 else b.shared.sync_var) b

release_in : Option Thread → Option Thread → Cmd Barrier (Unit {0})
release_in current (some iter) = transfer current iter
release_in current none = do
  clear_sync_var
  λ b. wake_others (self_of current) (threads_of b) b
  wait_if_suspended current

-- It returns 0 or aborts.
pub release_other_threads : Cmd Barrier (Unit {0})
release_other_threads b =
    if b.shared.debuggee.multithread_capable
    then release_in (get_current_thread b)
        (find_pending (self_of (get_current_thread b)) (threads_of b)) b
    else ok tt b
