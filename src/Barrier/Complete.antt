-- ===== src/Barrier/Complete.antt =====
-- A whole round of the barrier: the threads are stopped and let go.
use mathlib.Core.Option
use udi.Barrier.{
  Read, Barrier, in_control, thread_of_id, threads_of, get_current_thread, event_pending,
  find_pending, block_other_threads, release_other_threads,
}
use udi.Barrier.Answers.{Answer, stored, answered, answers}
use udi.Barrier.Round.{
  running_others, is_listed, flags, control_flag, clear, take, cleared, after_answers,
  block_other_threads-lem, release_other_threads-wakes,
}
use udi.Cmd.{ok}
use udi.Machine.{Ptr}
use udi.Msg.Debuggee.{running, Thread}
use udi.Msg.Thread.{find_thread, change_thread}
use udi.Prelude.{
  ℕ, ◌≡◌, refl, ap, true, false, Option, none, some, List, [], ◌∷◌, ◌++◌, arith, length, ◌==◌, ltb,
  if◌then◌else◌, Bool-cases, inl, inr, ◌∙◌,
}

-- A change of a thread that `release_other_threads` does not tell, and after which no event is pending
-- that was not.
record IsFlag (f : Thread → Thread) : Type 0 where
  self : (t : Thread) → Thread.self (f t) ≡ t.self
  id : (t : Thread) → Thread.id (f t) ≡ t.id
  ts : (t : Thread) → Thread.ts (f t) ≡ t.ts
  pending : (t : Thread) → event_pending t ≡ false → event_pending (f t) ≡ false

abbrev some_or : Thread → Option Thread → Thread
some_or t none = t
some_or t (some u) = u

-- The threads are the same to `release_other_threads`, if no event is pending.
record IsSame (thr : Ptr) (tid : ℕ) (ts ts' : List Thread) : Type 0 where
  running : running_others thr ts' ≡ running_others thr ts
  quiet : find_pending thr ts ≡ none → find_pending thr ts' ≡ none
  current :
      (t : Thread)
      → thread_of_id tid ts ≡ some t
      → (t' : Thread) × (thread_of_id tid ts' ≡ some t') × (t'.self ≡ t.self) × (t'.ts ≡ t.ts)

module _ (f : Thread → Thread) (flag : IsFlag f) (q thr : Ptr) (tid : ℕ) where
  running_others-change :
      (ts : List Thread) → running_others thr (change_thread q f ts) ≡ running_others thr ts
  unfolding running_others change_thread
  running_others-change [] = refl
  running_others-change (t ∷ ts) = elim (Bool-cases (t.self == q)) [
    | inl e ↦ rw (e, flag.self t, flag.ts t) refl
    | inr e ↦ rw (e, running_others-change ts) refl
  ]

  find_pending-change :
      (ts : List Thread)
      → find_pending thr ts ≡ none
      → find_pending thr (change_thread q f ts) ≡ none
  unfolding find_pending change_thread
  find_pending-change [] h = refl
  find_pending-change (t ∷ ts) h =
      ground (arith, flag.self t, flag.pending t, find_pending-change ts)

  thread_of_id-change :
      (ts : List Thread) (t : Thread)
      → thread_of_id tid ts ≡ some t
      → (t' : Thread) × (thread_of_id tid (change_thread q f ts) ≡ some t')
        × (t'.self ≡ t.self)
        × (t'.ts ≡ t.ts)
  unfolding thread_of_id change_thread
  thread_of_id-change [] t h = absurd (ground arith)
  thread_of_id-change (u ∷ us) t h = elim (Bool-cases (u.id == tid)) [
    | inl c ↦
        let same = ap (some_or u) (rw c at h) in
        elim (Bool-cases (u.self == q)) [
          | inl e ↦ (
            f u,
            rw (e, flag.id u, c) refl,
            flag.self u ∙ ap Thread.self same,
            flag.ts u ∙ ap Thread.ts same,
          )
          | inr e ↦ (u, rw (e, c) refl, ap Thread.self same, ap Thread.ts same)
        ]
    | inr c ↦ elim (Bool-cases (u.self == q)) [
      | inl e ↦ (t, rw (e, flag.id u, c) (rw c at h), refl, refl)
      | inr e ↦
          let (t', there, self', ts') = thread_of_id-change us t (rw c at h) in
          (t', rw (e, c) there, self', ts')
    ]
  ]

  IsSame-change : (ts : List Thread) → IsSame thr tid ts (change_thread q f ts)
  IsSame-change ts = record {
    running = running_others-change ts;
    quiet = find_pending-change ts;
    current = thread_of_id-change ts;
  }

IsSame-trans :
    (thr : Ptr) (tid : ℕ) (ts ts' ts'' : List Thread)
    → IsSame thr tid ts ts'
    → IsSame thr tid ts' ts''
    → IsSame thr tid ts ts''
IsSame-trans thr tid ts ts' ts'' a b = record {
  running = b.running ∙ a.running;
  quiet = λ h. b.quiet (a.quiet h);
  current = λ t h.
      let (t', there, self', state') = a.current t h in
      let (t'', there', self'', state'') = b.current t' there in
      (t'', there', self'' ∙ self', state'' ∙ state');
}

clear-IsFlag : IsFlag clear
unfolding event_pending
clear-IsFlag = record { self = λ t. refl; id = λ t. refl; ts = λ t. refl; pending = λ t h. h }

take-IsFlag : IsFlag take
unfolding event_pending
take-IsFlag = record { self = λ t. refl; id = λ t. refl; ts = λ t. refl; pending = λ t h. h }

cleared-IsSame : (thr : Ptr) (tid : ℕ) (us ts : List Thread) → IsSame thr tid ts (cleared thr us ts)
unfolding cleared
cleared-IsSame thr tid [] ts = record {
  running = refl;
  quiet = λ h. h;
  current = λ t h. (t, h, refl, refl);
}
cleared-IsSame thr tid (u ∷ us) ts = elim (Bool-cases (u.self == thr)) [
  | inl e ↦ rw e (cleared-IsSame thr tid us ts)
  | inr e ↦ rw e (
      IsSame-trans thr tid ts (change_thread u.self clear ts)
        (cleared thr us (change_thread u.self clear ts))
        (IsSame-change clear clear-IsFlag u.self thr tid ts)
        (cleared-IsSame thr tid us (change_thread u.self clear ts)))
]

stored-IsFlag : (r : Answer) → IsFlag (stored r)
unfolding event_pending
stored-IsFlag r = record {
  self = λ t. refl;
  id = λ t. refl;
  ts = λ t. refl;
  pending = λ t h. ground arith;
}

answered-IsSame :
    (thr : Ptr) (tid : ℕ) (rs : List Answer) (ts : List Thread) → IsSame thr tid ts (answered rs ts)
unfolding answered
answered-IsSame thr tid [] ts = record {
  running = refl;
  quiet = λ h. h;
  current = λ t h. (t, h, refl, refl);
}
answered-IsSame thr tid (r ∷ rs) ts =
    IsSame-trans thr tid ts (change_thread r.thread (stored r) ts) (answered (r ∷ rs) ts)
      (IsSame-change (stored r) (stored-IsFlag r) r.thread thr tid ts)
      (answered-IsSame thr tid rs (change_thread r.thread (stored r) ts))

-- The first thread of a process with several threads comes to the barrier and is not itself suspended, no
-- event of another thread is pending, the signals can be sent, as many sentinels come as threads
-- are sent one, each with the suspend signal and a context stored in the thread that answers, and the
-- control pipes take what is written. Then blocking the other threads gives it control: the threads of
-- the list that run but are not this one are sent the suspend signal, the variable of the barrier is
-- 1, and of the threads of the list, the flag of control is set in this one and in no other; and
-- releasing them succeeds: exactly the threads that were sent the signal are sent a sentinel each, in
-- the same order, the variable is 0 again, and all sentinels that they sent have been read. Of
-- what the threads share, nothing but the structures of the threads has then changed.
pub release_other_threads-block_other_threads :
    (b : Barrier) (t : Thread) (rs : List Answer) (later : List Read)
    → b.shared.debuggee.multithread_capable ≡ true
    → ltb 1 b.shared.debuggee.num_threads ≡ true
    → get_current_thread b ≡ some t
    → find_thread t.self (threads_of b) ≡ some t
    → t.ts ≡ running
    → find_pending t.self (threads_of b) ≡ none
    → b.shared.sync_var ≡ 0
    → b.kills ≡ []
    → b.writes ≡ []
    → length rs ≡ length (running_others t.self (threads_of b))
    → b.reads ≡ answers rs ++ later
    → (b' b'' : Barrier) × (block_other_threads b ≡ ok in_control b')
      × (b'.shared.sync_var ≡ 1)
      × ((q : Ptr)
          → is_listed q (threads_of b) ≡ true
          → control_flag (find_thread q (threads_of b')) ≡ (
              if q == t.self
              then some true
              else Option.map (λ u. false) (find_thread q (threads_of b))))
      × (release_other_threads b' ≡ ok tt b'')
      × (b''.signalled ≡ b.signalled ++ running_others t.self (threads_of b))
      × (b''.released ≡ b.released ++ running_others t.self (threads_of b))
      × (b''.shared ≡ record {
        debuggee = record b.shared.debuggee { threads = threads_of b' };
        sync_var = 0;
      })
      × (b''.reads ≡ later)
release_other_threads-block_other_threads b t rs later capable many current there run quiet free
      kills writes count reads =
    let tid = b.shared.debuggee.user_thread_id in
    let taken = change_thread t.self take (threads_of b) in
    let stopped = cleared t.self (threads_of b) taken in
    let same =
      IsSame-trans t.self tid (threads_of b) taken (answered rs stopped)
        (IsSame-change take take-IsFlag t.self t.self tid (threads_of b))
        (IsSame-trans t.self tid taken stopped (answered rs stopped)
          (cleared-IsSame t.self tid (threads_of b) taken)
          (answered-IsSame t.self tid rs stopped)) in
    let (t', current', self', state') = same.current t current in
    let b' = after_answers b t.self rs later in
    (
      b',
      record b' {
        shared = record b'.shared { sync_var = 0 };
        writes = [];
        released = b.released ++ running_others t.self (threads_of b);
      },
      block_other_threads-lem b t rs later (rw (capable, many) refl) current there free kills count
          reads,
      refl,
      λ q i. flags b t there rs later q i,
      release_other_threads-wakes b' t' capable current' (state' ∙ run)
            (rw self' (same.quiet quiet)) writes
          ∙ rw (self', same.running) refl,
      refl,
      refl,
      refl,
      refl,
    )
