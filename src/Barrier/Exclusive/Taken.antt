-- ===== src/Barrier/Exclusive/Taken.antt =====
-- Control is taken from all others.
use udi.Barrier.Exclusive.{
  flag_of, Only, IsExclusive, Keeps, IsSafe, After, After-and_then, Has, read_sentinel-IsSafe,
  read_sentinels-IsSafe,
}
use mathlib.Core.Option
use udi.Barrier.{
  Read, Barrier, threads_of, with_threads, get_current_thread, read_sentinels, pthread_kill,
  write_trigger, is_running, suspend_others, set_sync_var, take_control, await_release, control_of,
  block_in, block_other_threads, thread_suspend_signal,
}
use udi.Barrier.Round.{clear, take, is_listed, cleared, find_thread-cleared}
use udi.Machine.{Ptr}
use udi.Msg.Debuggee.{Thread}
use udi.Msg.Thread.{find_thread, change_thread}
use udi.Msg.Thread.Suspend.{find_thread-change_thread}
use udi.Prelude.{
  ◌≡◌, refl, sym, ◌∙◌, false, not, ◌&&◌, Option, none, some, List, [], ◌∷◌, arith, ◌==◌, ==_ne, ltb,
  if◌then◌else◌, Bool-cases, inl, inr,
}

pthread_kill-keeps :
    (thr : Ptr) (b : Barrier) → After (Has (threads_of b) b.reads) (pthread_kill thr b)
unfolding pthread_kill After
pthread_kill-keeps thr b = ground arith

suspend_others-clears :
    (thr : Ptr) (us : List Thread) (b : Barrier) (ts : List Thread) (rs : List Read)
    → cleared thr us (threads_of b) ≡ ts
    → b.reads ≡ rs
    → After (Has ts rs) (suspend_others thr us b)
unfolding suspend_others After cleared
suspend_others-clears thr [] b ts rs e r = (e, r)
suspend_others-clears thr (u ∷ us) b ts rs e r = elim (Bool-cases (u.self == thr)) [
  | inl c ↦ rw c (suspend_others-clears thr us b ts rs (rw c at e) r)
  | inr c ↦ elim (Bool-cases (is_running u.ts)) [
    | inr idle ↦
        rw (c, idle)
          (suspend_others-clears thr us (with_threads (change_thread u.self clear (threads_of b)) b)
            ts rs (rw c at e) r)
    | inl run ↦
        rw (c, run)
          (After-and_then (Has (change_thread u.self clear (threads_of b)) b.reads) (Has ts rs)
            (pthread_kill u.self (with_threads (change_thread u.self clear (threads_of b)) b)) _
            (pthread_kill-keeps u.self (with_threads (change_thread u.self clear (threads_of b)) b))
            (λ a b' h.
              After-and_then (Has ts rs) (Has ts rs) (suspend_others thr us b') _
                (suspend_others-clears thr us b' ts rs (rw h.0 (rw c at e)) (h.1 ∙ r))
                (λ n b'' h'. h')))
  ]
]

find_thread-unlisted :
    (q : Ptr) (ts : List Thread) → is_listed q ts ≡ false → find_thread q ts ≡ none
unfolding find_thread
find_thread-unlisted q [] h = refl
find_thread-unlisted q (t ∷ ts) h = ground (arith, find_thread-unlisted q ts)

pub flag_of-clear : (t : Option Thread) → flag_of (Option.map clear t) ≡ false
flag_of-clear none = refl
flag_of-clear (some t) = refl

-- The thread that took control has it alone.
cleared-Only :
    (thr : Ptr) (ts : List Thread) → Only thr (cleared thr ts (change_thread thr take ts))
unfolding Only
cleared-Only thr ts q ne =
    rw
      (
        find_thread-cleared thr q ts (change_thread thr take ts),
        find_thread-change_thread thr q take ts (λ t. refl),
        ==_ne q thr ne,
        ==_ne thr q (λ e. ne (sym e)),
      )
      (elim (Bool-cases (is_listed q ts)) [
        | inl c ↦ rw c (flag_of-clear (find_thread q ts))
        | inr c ↦ rw (c, find_thread-unlisted q ts c) refl
      ])

take_control-IsSafe : (thr : Ptr) (b : Barrier) → Keeps b.reads → After IsSafe (take_control thr b)
unfolding take_control set_sync_var IsSafe IsExclusive
take_control-IsSafe thr b k =
    let ts = cleared thr (threads_of b) (change_thread thr take (threads_of b)) in
    let b' =
      with_threads (change_thread thr take (threads_of b))
        (record b { shared = record b.shared { sync_var = 1 } }) in
    After-and_then (Has ts b.reads) IsSafe (suspend_others thr (threads_of b) b')
      (λ n. read_sentinels n) (suspend_others-clears thr (threads_of b) b' ts b.reads refl refl)
      (λ n b'' h.
        read_sentinels-IsSafe n b'' ((thr, rw h.0 (cleared-Only thr (threads_of b))), rw h.1 k))

mapped :
    (t : Option Thread) (f : Thread → Thread)
    → ((u : Thread) → u.control_thread ≡ false → Thread.control_thread (f u) ≡ false)
    → flag_of t ≡ false
    → flag_of (Option.map f t) ≡ false
mapped none f drops e = refl
mapped (some t) f drops e = drops t e

-- A change that gives no thread control.
Only-change :
    (p self : Ptr) (f : Thread → Thread) (ts : List Thread)
    → ((t : Thread) → Thread.self (f t) ≡ t.self)
    → ((t : Thread) → t.control_thread ≡ false → Thread.control_thread (f t) ≡ false)
    → Only p ts
    → Only p (change_thread self f ts)
unfolding Only
Only-change p self f ts keep drops only q ne =
    rw (find_thread-change_thread self q f ts keep) (elim (Bool-cases (self == q)) [
      | inl c ↦ rw c (mapped (find_thread q ts) f drops (only q ne))
      | inr c ↦ rw c (only q ne)
    ])

write_trigger-keeps : (b : Barrier) → After (Has (threads_of b) b.reads) (write_trigger b)
unfolding write_trigger After
write_trigger-keeps b = ground arith

await_release-IsSafe : (thr : Thread) (b : Barrier) → IsSafe b → After IsSafe (await_release thr b)
unfolding await_release IsSafe IsExclusive
await_release-IsSafe thr b s =
    let f : Thread → Thread =
      λ t. record t { suspend_pending = not (t.signal == thread_suspend_signal) } in
    After-and_then (Has (threads_of b) b.reads) IsSafe (write_trigger b) _ (write_trigger-keeps b)
      (λ a b' h. read_sentinel-IsSafe (with_threads (change_thread thr.self f (threads_of b')) b') (
        (s.0.0, Only-change s.0.0 thr.self f (threads_of b') (λ t. refl) (λ t e. e) (rw h.0 s.0.1)),
        rw h.1 s.1,
      ))

control_of-IsSafe : (t : Option Thread) (b : Barrier) → IsSafe b → After IsSafe (control_of t b)
unfolding control_of After
control_of-IsSafe none b s = tt
control_of-IsSafe (some t) b s = s

block_in-IsSafe : (thr : Option Thread) (b : Barrier) → IsSafe b → After IsSafe (block_in thr b)
unfolding block_in After IsSafe
block_in-IsSafe none b s = s
block_in-IsSafe (some thr) b s =
    After-and_then IsSafe IsSafe
      ((if b.shared.sync_var == 0 then take_control thr.self else await_release thr) b) _
      (elim (Bool-cases (b.shared.sync_var == 0)) [
        | inl c ↦ rw c (take_control-IsSafe thr.self b s.1)
        | inr c ↦ rw c (await_release-IsSafe thr b s)
      ])
      (λ a b' s'. control_of-IsSafe (find_thread thr.self (threads_of b')) b' s')

pub block_other_threads-IsSafe : (b : Barrier) → IsSafe b → After IsSafe (block_other_threads b)
unfolding block_other_threads After
block_other_threads-IsSafe b s =
    elim (Bool-cases
      (b.shared.debuggee.multithread_capable && ltb 1 b.shared.debuggee.num_threads)) [
        | inl c ↦ rw c (block_in-IsSafe (get_current_thread b) b s)
        | inr c ↦ rw c s
      ]
