-- ===== src/Signals/Delivery.antt =====
-- Which handler of the application a signal reaches.
use udi.Cmd.{ok}
use udi.Signals.{
  SignalSet, sig_dfl, sig_ign, Action, AppSigaction, Signals, setsigmask, find_app_action, call,
  pass_to, pass_first, pass_on, app_signal_handler,
}
use udi.Prelude.{
  ℕ, ◌≡◌, ◌≢◌, refl, none, some, List, [], ◌∷◌, ◌++◌, ◌==◌, ==_ne, Bool-cases, inl, inr,
  if◌then◌else◌,
}

-- The state after a handler was called with the signals of its mask blocked.
abbrev pub after_call : Signals → Action → ℕ → Signals
after_call s action signum = record s {
  sigmasks = [];
  calls =
      s.calls
      ++ (record { handler = action.sa_handler; signum = signum; blocked = action.sa_mask } ∷ []);
}

module _ (s : Signals) (unset : SignalSet) (signum : ℕ) (action : Action) (e : AppSigaction)
    (es : List AppSigaction) (table : s.app_actions ≡ e ∷ es)
    (registered : find_app_action signum s.app_actions none ≡ some action)
    (not_ignored : action.sa_handler ≢ sig_ign) where
  -- For a signal of the table whose action is not SIG_IGN, with calls of `setsigmask` that succeed, it
  -- is the first entry of the table that decides: nothing happens if its handler is SIG_DFL, and else
  -- its handler is called once with the number of the signal and the first entry's mask, and the
  -- signals that were blocked before are blocked again.
  pub app_signal_handler-first :
      s.sigmasks ≡ []
      → app_signal_handler unset signum s
        ≡ ok tt (if e.action.sa_handler == sig_dfl then s else after_call s e.action signum)
  unfolding app_signal_handler pass_on pass_first pass_to call setsigmask
  app_signal_handler-first m = elim (Bool-cases (e.action.sa_handler == sig_dfl)) [
    | inl d ↦ rw (registered, ==_ne action.sa_handler sig_ign not_ignored, table, d) refl
    | inr n ↦ rw (registered, ==_ne action.sa_handler sig_ign not_ignored, table, n, m) refl
  ]
