-- ===== src/Barrier/Exclusive/Given.antt =====
-- Control is given away before it is given on.
use udi.Barrier.Exclusive.{
  flag_of, Only, IsExclusive, Keeps, IsSafe, After, After-and_then, After-if, Has,
  read_sentinel-IsSafe, read_trigger_in-IsSafe,
}
use udi.Barrier.Exclusive.Taken.{flag_of-clear, block_other_threads-IsSafe}
use udi.Barrier.{
  Barrier, threads_of, with_threads, get_current_thread, read_trigger, write_control, is_running,
  set_sync_var, block_other_threads, find_pending, transfer, wake_others, wait_if_suspended,
  clear_sync_var, release_in, release_other_threads,
}
use udi.Barrier.Round.{clear, take}
use udi.Machine.{Ptr}
use udi.Msg.Debuggee.{Thread}
use udi.Msg.Thread.{find_thread, change_thread}
use udi.Msg.Thread.Suspend.{find_thread-change_thread}
use udi.Prelude.{
  ◌≡◌, refl, sym, false, not, ◌&&◌, Option, none, some, List, [], ◌∷◌, arith, ◌==◌, ==_ne,
  if◌then◌else◌, Bool-cases, inl, inr,
}

write_control-keeps :
    (thr : Ptr) (b : Barrier) → After (Has (threads_of b) b.reads) (write_control thr b)
unfolding write_control After
write_control-keeps thr b = ground arith

-- Once the only thread with control gave it away, none has it.
none_after_clear :
    (self : Ptr) (ts : List Thread)
    → Only self ts
    → (q : Ptr) → flag_of (find_thread q (change_thread self clear ts)) ≡ false
unfolding Only
none_after_clear self ts only q =
    rw (find_thread-change_thread self q clear ts (λ t. refl)) (elim (Bool-cases (self == q)) [
      | inl c ↦ rw c (flag_of-clear (find_thread q ts))
      | inr c ↦ rw c (only q (ground arith))
    ])

Only-take :
    (self : Ptr) (ts : List Thread)
    → ((q : Ptr) → flag_of (find_thread q ts) ≡ false)
    → Only self (change_thread self take ts)
unfolding Only
Only-take self ts quiet q ne =
    rw (find_thread-change_thread self q take ts (λ t. refl), ==_ne self q (λ e. ne (sym e)))
      (quiet q)

read_trigger-IsSafe : (b : Barrier) → IsSafe b → After IsSafe (read_trigger b)
unfolding read_trigger IsSafe
read_trigger-IsSafe b s = read_trigger_in-IsSafe b.reads b s.0 s.1

transfer-IsSafe :
    (t iter : Thread) (b : Barrier)
    → Only t.self (threads_of b)
    → Keeps b.reads
    → After IsSafe (transfer (some t) iter b)
unfolding transfer IsSafe IsExclusive
transfer-IsSafe t iter b only k =
    let given = change_thread t.self clear (threads_of b) in
    let ts = change_thread iter.self take given in
    let b' = with_threads ts (with_threads given b) in
    After-and_then (Has ts b.reads) IsSafe (write_control iter.self b') (λ _. read_trigger)
      (write_control-keeps iter.self b')
      (λ a b'' h. read_trigger-IsSafe b'' (
        (
          iter.self,
          rw h.0 (Only-take iter.self given (none_after_clear t.self (threads_of b) only)),
        ),
        rw h.1 k,
      ))

wake_others-IsSafe :
    (thr : Ptr) (ts : List Thread) (b : Barrier) → IsSafe b → After IsSafe (wake_others thr ts b)
unfolding wake_others After IsSafe
wake_others-IsSafe thr [] b s = s
wake_others-IsSafe thr (u ∷ us) b s = elim (Bool-cases (not (u.self == thr) && is_running u.ts)) [
  | inr c ↦ rw c (wake_others-IsSafe thr us b s)
  | inl c ↦ rw c (
      After-and_then (Has (threads_of b) b.reads) IsSafe (write_control u.self b) _
        (write_control-keeps u.self b)
        (λ a b' h. wake_others-IsSafe thr us b' (rw h.0 s.0, rw h.1 s.1)))
]

wait_if_suspended-IsSafe :
    (t : Thread) (b : Barrier) → IsSafe b → After IsSafe (wait_if_suspended (some t) b)
unfolding wait_if_suspended After
wait_if_suspended-IsSafe t b s = elim (Bool-cases (is_running t.ts)) [
  | inl c ↦ rw c s
  | inr c ↦ rw c (read_sentinel-IsSafe b s)
]

release_in-IsSafe :
    (t : Thread) (iter : Option Thread) (b : Barrier)
    → Only t.self (threads_of b)
    → Keeps b.reads
    → After IsSafe (release_in (some t) iter b)
unfolding release_in clear_sync_var set_sync_var IsSafe IsExclusive
release_in-IsSafe t (some iter) b only k = transfer-IsSafe t iter b only k
release_in-IsSafe t none b only k =
    let b' : Barrier = record b {
      shared = record b.shared {
        sync_var = if b.shared.sync_var == 1 then 0 else b.shared.sync_var;
      };
    } in
    After-and_then IsSafe IsSafe (wake_others t.self (threads_of b) b')
      (λ _. wait_if_suspended (some t))
      (wake_others-IsSafe t.self (threads_of b) b' ((t.self, only), k))
      (λ a b'' s. wait_if_suspended-IsSafe t b'' s)

-- If at most one thread has control, and what other threads do while this one reads leaves it so, then
-- at most one has control when `block_other_threads` returns, whatever it returns and whatever the
-- signals and the pipes answer; and if the running thread is one of the list and no other has control,
-- the same holds of `release_other_threads`, whether it transfers control or wakes the others.
pub block_other_threads-IsExclusive :
    (b c : Barrier) (t : Thread)
    → IsSafe b
    → get_current_thread c ≡ some t
    → Only t.self (threads_of c)
    → Keeps c.reads
    → After IsSafe (block_other_threads b) × After IsSafe (release_other_threads c)
unfolding release_other_threads After IsSafe IsExclusive
block_other_threads-IsExclusive b c t safe current only k = (
  block_other_threads-IsSafe b safe,
  After-if c.shared.debuggee.multithread_capable IsSafe _ _
      (rw current (release_in-IsSafe t (find_pending t.self (threads_of c)) c only k))
      ((t.self, only), k),
)
