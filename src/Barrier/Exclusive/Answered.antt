-- ===== src/Barrier/Exclusive/Answered.antt =====
-- The answers of suspended threads give nobody control.
use mathlib.Core.Option
use udi.Barrier.Answers.{Answer, stored, answers}
use udi.Barrier.Exclusive.{flag_of, Only, IsExclusive, Keeps}
use udi.Msg.Debuggee.{Thread}
use udi.Msg.Thread.{find_thread}
use udi.Msg.Thread.Suspend.{find_thread-change_thread}
use udi.Prelude.{◌≡◌, refl, ◌∙◌, Option, none, some, List, [], ◌∷◌, ◌==◌, Bool-cases, inl, inr}

flag_of-stored : (r : Answer) (t : Option Thread) → flag_of (Option.map (stored r) t) ≡ flag_of t
flag_of-stored r none = refl
flag_of-stored r (some t) = refl

pub answers-Keeps : (rs : List Answer) → Keeps (answers rs)
unfolding Keeps IsExclusive Only
answers-Keeps [] = tt
answers-Keeps (r ∷ rs) = (
  λ s e. (
    e.0,
    λ q ne. elim (Bool-cases (r.thread == q)) [
      | inl c ↦
          rw (find_thread-change_thread r.thread q (stored r) s.debuggee.threads (λ u. refl), c)
            (flag_of-stored r (find_thread q s.debuggee.threads) ∙ e.1 q ne)
      | inr c ↦
          rw (find_thread-change_thread r.thread q (stored r) s.debuggee.threads (λ u. refl), c)
            (e.1 q ne)
    ],
  ),
  answers-Keeps rs,
)
