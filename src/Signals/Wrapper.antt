-- ===== src/Signals/Wrapper.antt =====
-- The wrapper of `sigaction` as a map from signals to the application's actions.
use udi.Cmd.{ok}
use udi.Machine.{update}
use udi.Signals.{
  full_set, Action, AppSigaction, Signals, einval, real_sigaction, setsigmask, kept, is_intercepted,
  find_app_action, store_action, unblock, store_new, reset_to_default, sigaction,
}
use udi.Prelude.{
  ℕ, ◌≡◌, ◌≢◌, refl, Bool, true, false, Option, none, some, List, [], ◌∷◌, ◌==◌, arith,
  if◌then◌else◌, ==_ne, Bool-cases, inl, inr,
}

-- What the loop finds in entries without the signal is what it was given.
find_app_action-outside :
    (n : ℕ) (es : List AppSigaction) (found : Option Action)
    → is_intercepted n es ≡ false
    → find_app_action n es found ≡ found
unfolding find_app_action is_intercepted
find_app_action-outside n [] found h = refl
find_app_action-outside n (e ∷ es) found h = ground (arith, find_app_action-outside n es found)

find_app_action-intercepted :
    (n : ℕ) (es : List AppSigaction) (a : Action)
    → find_app_action n es none ≡ some a
    → is_intercepted n es ≡ true
find_app_action-intercepted n es a h = elim (Bool-cases (is_intercepted n es)) [
  | inl e ↦ e
  | inr e ↦ absurd (ground (arith, find_app_action-outside n es none e))
]

find_app_action-store_action :
    (k n : ℕ) (act : Action) (es : List AppSigaction) (found : Option Action)
    → find_app_action k (store_action n (some act) es) found ≡ (
        if n == k
        then if is_intercepted n es then some act else found
        else find_app_action k es found)
unfolding find_app_action store_action is_intercepted
find_app_action-store_action k n act [] found = ground arith
find_app_action-store_action k n act (e ∷ es) found = elim (Bool-cases (e.signal == n)) [
  | inl c ↦ rw c (
      ground (
        arith,
        find_app_action-store_action k n act es (if e.signal == k then some act else found),
      ))
  | inr c ↦ rw c (
      ground (
        arith,
        find_app_action-store_action k n act es (if e.signal == k then some e.action else found),
      ))
]

module _ (signum : ℕ) (act : Action) (s : Signals) where
  -- For a signal of the table, with a kernel that accepts every action and mask, the wrapper returns 0
  -- and the action of the application that was stored; the table then has the new action for the signal,
  -- and every other signal's as before; the library's default action is installed for the signal, other
  -- signals' actions, the blocked signals and the calls are as before.
  pub sigaction-find_app_action :
      (old : Action)
      → s.sigactions ≡ []
      → s.sigmasks ≡ []
      → find_app_action signum s.app_actions none ≡ some old
      → (s' : Signals) × (sigaction signum (some act) true s ≡ ok (0, some old) s')
        × ((n : ℕ)
            → find_app_action n s'.app_actions none
              ≡ (if signum == n then some act else find_app_action n s.app_actions none))
        × ((n : ℕ) → s'.installed n ≡ (if signum == n then s.default_lib_action else s.installed n))
        × (s'.blocked ≡ s.blocked)
        × (s'.calls ≡ s.calls)
  unfolding sigaction reset_to_default store_new unblock real_sigaction setsigmask
  sigaction-find_app_action old e e' h = (
    record s {
      app_actions = store_action signum (some act) s.app_actions;
      installed = update (update s.installed signum act) signum s.default_lib_action;
      sigactions = [];
      sigmasks = [];
    },
    rw (e, e', find_app_action-intercepted signum s.app_actions old h, h) refl,
    λ n. ground (
      arith,
      find_app_action-store_action n signum act s.app_actions none,
      find_app_action-intercepted signum s.app_actions old h,
    ),
    λ n. ground arith,
    refl,
    refl,
  )

  sigaction-unknown :
      (wants_old : Bool)
      → s.sigactions ≡ []
      → s.sigmasks ≡ []
      → is_intercepted signum s.app_actions ≡ false
      → sigaction signum (some act) wants_old s
        ≡ ok
            (einval, kept wants_old (some (s.installed signum)))
            (record s {
              installed = update (update s.installed signum act) signum s.default_lib_action;
              blocked = full_set;
              sigactions = [];
              sigmasks = [];
            })
  unfolding sigaction reset_to_default store_new real_sigaction setsigmask
  sigaction-unknown wants_old e e' h = rw (e, e', h) refl

  sigaction-refused :
      (wants_old : Bool) (errnum : ℕ) (later : List ℕ)
      → s.sigactions ≡ errnum ∷ later
      → errnum ≢ 0
      → s.sigmasks ≡ []
      → sigaction signum (some act) wants_old s
        ≡ ok (0, none) (record s { sigactions = later; sigmasks = [] })
  unfolding sigaction unblock real_sigaction setsigmask
  sigaction-refused wants_old errnum later e ne e' = rw (e, e', ==_ne errnum 0 ne) refl

module _ (signum : ℕ) (act : Action) (s : Signals) where
  -- For a signal that is not in the table, with a kernel that takes every mask: if it accepts every
  -- action, the wrapper returns EINVAL with the kernel's action, leaves all signals blocked and the
  -- library's default action installed for the signal; if it refuses the action with an `errno`, the
  -- wrapper returns 0, and stores and changes nothing.
  pub sigaction-unhandled :
      (errnum : ℕ) (later : List ℕ)
      → s.sigmasks ≡ []
      → is_intercepted signum s.app_actions ≡ false
      → errnum ≢ 0
      → (sigaction signum (some act) true (record s { sigactions = [] })
          ≡ ok
              (einval, some (s.installed signum))
              (record s {
                installed = update (update s.installed signum act) signum s.default_lib_action;
                blocked = full_set;
                sigactions = [];
                sigmasks = [];
              }))
        × (sigaction signum (some act) true (record s { sigactions = errnum ∷ later })
            ≡ ok (0, none) (record s { sigactions = later; sigmasks = [] }))
  sigaction-unhandled errnum later e h ne = (
    sigaction-unknown signum act (record s { sigactions = [] }) true refl e h,
    sigaction-refused signum act (record s { sigactions = errnum ∷ later }) true errnum later refl
        ne e,
  )
