-- ===== src/Barrier/Round.antt =====
-- One round of the barrier: the thread that comes first stops the others, and then lets them go.
use mathlib.Core.List.{append_assoc, append-nil}
use mathlib.Core.Option
use udi.Barrier.{
  Read, Barrier, in_control, threads_of, get_current_thread, with_threads, is_running, find_pending,
  pthread_kill, write_control, suspend_others, set_sync_var, take_control, control_of, block_in,
  block_other_threads, wake_others, wait_if_suspended, clear_sync_var, release_in,
  release_other_threads,
}
use udi.Barrier.Answers.{Answer, stored, answered, answers, read_sentinels-answers}
use udi.Cmd.{ok}
use udi.Machine.{Ptr}
use udi.Msg.Debuggee.{running, Thread}
use udi.Msg.Thread.{find_thread, change_thread}
use udi.Msg.Thread.Suspend.{find_thread-change_thread, find_thread-changed}
use udi.Prelude.{
  ◌≡◌, refl, ◌∙◌, Bool, true, false, not, ◌&&◌, ◌||◌, Option, none, some, List, [], ◌∷◌, ◌++◌, ap,
  arith, length, ◌==◌, ltb, if◌then◌else◌, ==_refl, Bool-cases, if_true, if_false, inl, inr,
}

-- The threads but `thr` that are running, in the order of the list.
unfoldable pub running_others : Ptr → List Thread → List Ptr
running_others thr [] = []
running_others thr (t ∷ ts) =
    if not (t.self == thr) && is_running t.ts
    then t.self ∷ running_others thr ts
    else running_others thr ts

wake_others-lem :
    (thr : Ptr) (ts : List Thread) (b : Barrier)
    → b.writes ≡ []
    → wake_others thr ts b
      ≡ ok tt (record b { writes = []; released = b.released ++ running_others thr ts })
unfolding wake_others write_control running_others
wake_others-lem thr [] b e = simp (append-nil, ← e)
wake_others-lem thr (t ∷ ts) b e = elim (Bool-cases (not (t.self == thr) && is_running t.ts)) [
  | inl c ↦
      rw (c, e)
        (rw
          (wake_others-lem thr ts (record b { writes = []; released = b.released ++ (t.self ∷ []) })
            refl)
          (simp append_assoc))
  | inr c ↦ rw c (wake_others-lem thr ts b e)
]

-- Where a running thread has control, no event of another thread is pending and the control pipes take
-- what is written, `release_other_threads` sends a sentinel to exactly the other running threads, in
-- the order of the list, and resets the variable of the barrier, if it is 1.
pub release_other_threads-wakes :
    (b : Barrier) (t : Thread)
    → b.shared.debuggee.multithread_capable ≡ true
    → get_current_thread b ≡ some t
    → t.ts ≡ running
    → find_pending t.self (threads_of b) ≡ none
    → b.writes ≡ []
    → release_other_threads b
      ≡ ok tt (record b {
        shared = record b.shared {
          sync_var = if b.shared.sync_var == 1 then 0 else b.shared.sync_var;
        };
        writes = [];
        released = b.released ++ running_others t.self (threads_of b);
      })
unfolding release_other_threads release_in clear_sync_var set_sync_var wait_if_suspended
release_other_threads-wakes b t capable current run quiet e =
    if_true _ _ _ capable
    ∙ rw (current, quiet)
        (rw
          (wake_others-lem t.self (threads_of b)
            (record b {
              shared = record b.shared {
                sync_var = if b.shared.sync_var == 1 then 0 else b.shared.sync_var;
              };
            })
            e)
          (rw run refl))

abbrev pub clear : Thread → Thread
clear t = record t { control_thread = false }

abbrev pub take : Thread → Thread
take t = record t { control_thread = true }

clear-clear : (t : Option Thread) → Option.map clear (Option.map clear t) ≡ Option.map clear t
clear-clear none = refl
clear-clear (some t) = refl

abbrev pub is_listed : Ptr → List Thread → Bool
is_listed q [] = false
is_listed q (t ∷ ts) = (t.self == q) || is_listed q ts

-- The threads after `suspend_others`.
unfoldable pub cleared : Ptr → List Thread → List Thread → List Thread
cleared thr [] ts = ts
cleared thr (u ∷ us) ts =
    if u.self == thr then cleared thr us ts else cleared thr us (change_thread u.self clear ts)

pub find_thread-cleared :
    (thr q : Ptr) (us ts : List Thread)
    → find_thread q (cleared thr us ts) ≡ (
        if not (q == thr) && is_listed q us
        then Option.map clear (find_thread q ts)
        else find_thread q ts)
unfolding cleared
find_thread-cleared thr q [] ts = ground arith
find_thread-cleared thr q (u ∷ us) ts = elim (Bool-cases (u.self == thr)) [
  | inl c ↦ rw c (ground (arith, find_thread-cleared thr q us ts))
  | inr c ↦ rw c (
      ground (
        arith,
        find_thread-cleared thr q us (change_thread u.self clear ts),
        find_thread-change_thread u.self q clear ts (λ t. refl),
        clear-clear (find_thread q ts),
      ))
]

suspend_others-lem :
    (thr : Ptr) (us : List Thread) (b : Barrier)
    → b.kills ≡ []
    → suspend_others thr us b
      ≡ ok
          (length (running_others thr us))
          (record (with_threads (cleared thr us (threads_of b)) b) {
            kills = [];
            signalled = b.signalled ++ running_others thr us;
          })
unfolding suspend_others running_others cleared pthread_kill
suspend_others-lem thr [] b e = simp (append-nil, ← e)
suspend_others-lem thr (t ∷ ts) b e = elim (Bool-cases (t.self == thr)) [
  | inl c ↦ rw c (suspend_others-lem thr ts b e)
  | inr c ↦ elim (Bool-cases (is_running t.ts)) [
    | inl r ↦
        rw (c, r, e)
          (rw
            (suspend_others-lem thr ts
              (record (with_threads (change_thread t.self clear (threads_of b)) b) {
                kills = [];
                signalled = b.signalled ++ (t.self ∷ []);
              })
              refl)
            (rw (append_assoc b.signalled (t.self ∷ []) (running_others thr ts)) refl))
    | inr r ↦
        rw (c, r)
          (suspend_others-lem thr ts (with_threads (change_thread t.self clear (threads_of b)) b) e)
  ]
]

-- Once the signals are sent.
abbrev pub after_block : Barrier → Ptr → Barrier
after_block b thr =
    record (with_threads (cleared thr (threads_of b) (change_thread thr take (threads_of b)))
      (record b { shared = record b.shared { sync_var = 1 } })) {
        kills = [];
        signalled = b.signalled ++ running_others thr (threads_of b);
      }

-- Once they are answered.
abbrev pub after_answers : Barrier → Ptr → List Answer → List Read → Barrier
after_answers b thr rs later =
    record (with_threads (answered rs (threads_of (after_block b thr))) (after_block b thr)) {
      reads = later;
    }

-- Whether a thread has control.
abbrev pub control_flag : Option Thread → Option Bool
control_flag t = Option.map Thread.control_thread t

-- The answers leave the flags of control as they are.
control_flag-answered :
    (q : Ptr) (rs : List Answer) (ts : List Thread)
    → control_flag (find_thread q (answered rs ts)) ≡ control_flag (find_thread q ts)
unfolding answered
control_flag-answered q [] ts = refl
control_flag-answered q (r ∷ rs) ts =
    control_flag-answered q rs (change_thread r.thread (stored r) ts) ∙ kept
  where
    same : (u : Option Thread) → control_flag (Option.map (stored r) u) ≡ control_flag u
    same none = refl
    same (some u) = refl

    kept :
        control_flag (find_thread q (change_thread r.thread (stored r) ts))
        ≡ control_flag (find_thread q ts)
    kept = elim (Bool-cases (r.thread == q)) [
      | inl c ↦
          rw (find_thread-change_thread r.thread q (stored r) ts (λ u. refl), c)
            (same (find_thread q ts))
      | inr c ↦ rw (find_thread-change_thread r.thread q (stored r) ts (λ u. refl), c) refl
    ]

control_of-flag :
    (u : Option Thread) (b : Barrier)
    → control_flag u ≡ some true
    → control_of u b ≡ ok in_control b
unfolding control_of
control_of-flag none b e = absurd (ground arith)
control_of-flag (some u) b e = ground (arith)

module _ (b : Barrier) (t : Thread) (there : find_thread t.self (threads_of b) ≡ some t) where
  own_flag : find_thread t.self (threads_of (after_block b t.self)) ≡ some (take t)
  own_flag =
      rw
        (
          find_thread-cleared t.self t.self (threads_of b)
              (change_thread t.self take (threads_of b)),
          ==_refl t.self,
        )
        (find_thread-changed b.shared.debuggee t.self t take (λ u. refl) there)

  own_answered :
      (rs : List Answer) (later : List Read)
      → control_of
          (find_thread t.self (threads_of (after_answers b t.self rs later)))
          (after_answers b t.self rs later)
        ≡ ok in_control (after_answers b t.self rs later)
  own_answered rs later = control_of-flag _ _ (
      control_flag-answered t.self rs (threads_of (after_block b t.self))
      ∙ ap control_flag own_flag)

  listed :
      (q : Ptr)
      → is_listed q (threads_of b) ≡ true
      → find_thread q (threads_of (after_block b t.self))
        ≡ (if q == t.self then some (take t) else Option.map clear (find_thread q (threads_of b)))
  listed q i = ground (
    arith,
    own_flag,
    find_thread-cleared t.self q (threads_of b) (change_thread t.self take (threads_of b)),
    find_thread-change_thread t.self q take (threads_of b) (λ u. refl),
  )

  -- Of the threads of the list, only this one has control.
  pub flags :
      (rs : List Answer) (later : List Read) (q : Ptr)
      → is_listed q (threads_of b) ≡ true
      → control_flag (find_thread q (threads_of (after_answers b t.self rs later))) ≡ (
          if q == t.self then some true else Option.map (λ u. false) (find_thread q (threads_of b)))
  flags rs later q i =
      control_flag-answered q rs (threads_of (after_block b t.self))
      ∙ rw (listed q i) (elim (Bool-cases (q == t.self)) [
        | inl c ↦ rw c refl
        | inr c ↦ rw c (cleared_flag (find_thread q (threads_of b)))
      ])
    where
      cleared_flag :
          (u : Option Thread) → control_flag (Option.map clear u) ≡ Option.map (λ v. false) u
      cleared_flag none = refl
      cleared_flag (some u) = refl

pub block_other_threads-lem :
    (b : Barrier) (t : Thread) (rs : List Answer) (later : List Read)
    → b.shared.debuggee.multithread_capable && ltb 1 b.shared.debuggee.num_threads ≡ true
    → get_current_thread b ≡ some t
    → find_thread t.self (threads_of b) ≡ some t
    → b.shared.sync_var ≡ 0
    → b.kills ≡ []
    → length rs ≡ length (running_others t.self (threads_of b))
    → b.reads ≡ answers rs ++ later
    → block_other_threads b ≡ ok in_control (after_answers b t.self rs later)
unfolding block_other_threads block_in take_control set_sync_var control_of
block_other_threads-lem b t rs later many current there free kills count reads =
    if_true _ _ _ many
    ∙ rw (current, free)
        (rw
          (suspend_others-lem t.self (threads_of b)
            (with_threads (change_thread t.self take (threads_of b))
              (record b { shared = record b.shared { sync_var = 1 } }))
            kills)
          (rw (← count, read_sentinels-answers rs later (after_block b t.self) reads)
            (own_answered b t there rs later)))

-- A process that cannot have other threads does not wait.
pub block_other_threads-alone :
    (b : Barrier)
    → b.shared.debuggee.multithread_capable ≡ false
    → block_other_threads b ≡ ok in_control b
unfolding block_other_threads
block_other_threads-alone b e =
    if_false (b.shared.debuggee.multithread_capable && ltb 1 b.shared.debuggee.num_threads) _ _
      (rw e refl)
