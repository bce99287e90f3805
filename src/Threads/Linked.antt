-- ===== src/Threads/Linked.antt =====
-- Creating a thread against destroying one.
use udi.Barrier.{thread_of_id}
use udi.Cmd.{ok}
use udi.Machine.{Ptr, null}
use udi.Msg.Debuggee.{Thread, Debuggee, destroy_thread, drop_thread, has_thread, unlink_thread}
use udi.Threads.{
  udi_malloc, init_control_pipe, allocate_context_data, new_thread, create_thread_struct,
  link_thread, link_new, create_thread,
}
use udi.Prelude.{
  drop, ℕ, ◌+◌, ◌-◌, ◌≡◌, ◌≢◌, refl, ◌∙◌, true, false, none, some, List, [], ◌∷◌, ◌++◌, arith, ◌==◌,
  ==_ne, ==_refl, Bool-cases, if_true, if_false, inl, inr,
}

thread_of_id-append :
    (tid : ℕ) (ts : List Thread) (t : Thread)
    → thread_of_id tid ts ≡ none
    → t.id ≡ tid
    → thread_of_id tid (ts ++ (t ∷ [])) ≡ some t
unfolding thread_of_id
thread_of_id-append tid [] t h e = rw (e, ==_refl tid) refl
thread_of_id-append tid (u ∷ us) t h e = ground (arith, thread_of_id-append tid us t)

has_thread-append :
    (self : Ptr) (ts : List Thread) (t : Thread)
    → t.self ≡ self
    → has_thread self (ts ++ (t ∷ [])) ≡ true
unfolding has_thread
has_thread-append self [] t e = rw (e, ==_refl self) refl
has_thread-append self (u ∷ us) t e = ground (arith, has_thread-append self us t e)

drop_thread-append :
    (self : Ptr) (ts : List Thread) (t : Thread)
    → has_thread self ts ≡ false
    → t.self ≡ self
    → drop_thread self (ts ++ (t ∷ [])) ≡ ts
unfolding has_thread drop_thread
drop_thread-append self [] t h e = rw (e, ==_refl self) refl
drop_thread-append self (u ∷ us) t h e = elim (Bool-cases (u.self == self)) [
  | inl c ↦ absurd (ground arith)
  | inr c ↦ rw (c, drop_thread-append self us t (rw c at h) e) refl
]

unlink_thread-append :
    (self : Ptr) (ts : List Thread) (t : Thread)
    → has_thread self ts ≡ false
    → t.self ≡ self
    → ts ≢ []
    → unlink_thread self (ts ++ (t ∷ [])) ≡ ts
unfolding unlink_thread has_thread
unlink_thread-append self [] t h e ne = absurd (ne refl)
unlink_thread-append self (u ∷ us) t h e ne = elim (Bool-cases (u.self == self)) [
  | inl c ↦ absurd (ground arith)
  | inr c ↦ rw c (drop_thread-append self (u ∷ us) t h e)
]

pub init_control_pipe-lem :
    (s : Debuggee) → s.pipes ≡ [] → init_control_pipe s ≡ ok true (record s { pipes = [] })
unfolding init_control_pipe
init_control_pipe-lem s e = elim (Bool-cases s.multithread_capable) [
  | inl c ↦ if_true _ _ _ c ∙ rw e refl
  | inr c ↦ if_false _ _ _ c ∙ rw (← e) refl
]

one_less : (n : ℕ) → n + 1 - 1 ≡ n
one_less n = omega arith

module _ (s : Debuggee) (new : Ptr) (tid : ℕ) (later : List Ptr) (next : s.addresses ≡ new ∷ later)
    (ne : new ≢ null) (unused : has_thread new s.threads ≡ false) (pipes : s.pipes ≡ []) where
  abbrev pub linked : Debuggee
  linked = record s {
    threads = s.threads ++ (new_thread new tid ∷ []);
    num_threads = s.num_threads + 1;
    addresses = later;
    pipes = [];
  }

  pub create_thread-lem : create_thread tid s ≡ ok (some (new_thread new tid)) linked
  unfolding create_thread create_thread_struct udi_malloc init_control_pipe allocate_context_data
      link_new link_thread
  create_thread-lem =
      rw (next, ==_ne new 0 ne)
        (rw (init_control_pipe-lem (record s { addresses = later }) pipes) refl)

  -- In a process with threads, of which none has the id, with an unused address from the allocator and
  -- a pipe that can be had, a thread is created; it is then found by its id, and
  -- destroying it leaves everything as it was before, but for the address, the pipe and the results of two
  -- calls of `close` that are used up.
  pub destroy_thread-create_thread :
      s.threads ≢ []
      → thread_of_id tid s.threads ≡ none
      → (s' : Debuggee) × (create_thread tid s ≡ ok (some (new_thread new tid)) s')
        × (thread_of_id tid s'.threads ≡ some (new_thread new tid))
        × (s'.num_threads ≡ s.num_threads + 1)
        × (destroy_thread new s'
            ≡ ok tt (record s { addresses = later; pipes = []; closes = drop 2 s.closes }))
  unfolding destroy_thread
  destroy_thread-create_thread some_thread free = (
    linked,
    create_thread-lem,
    thread_of_id-append tid s.threads (new_thread new tid) free refl,
    refl,
    rw
        (
          has_thread-append new s.threads (new_thread new tid) refl,
          unlink_thread-append new s.threads (new_thread new tid) unused refl some_thread,
          one_less s.num_threads,
        )
        refl,
  )
