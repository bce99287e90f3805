-- ===== src/Signals/Handlers.antt =====
-- What setting up and uninstalling the signal handlers does to the kernel's actions.
use udi.Cmd.{ok}
use udi.Machine.{Ptr, update}
use udi.Signals.{
  Action, AppSigaction, Signals, sigpipe, signals, blank_entry, real_sigaction, register, reset,
  uninstall_signal_handlers, lib_action, setup_signal_handlers,
}
use udi.Prelude.{
  ℕ, ◌≡◌, refl, Bool, true, false, ◌&&◌, ◌||◌, not, List, [], ◌∷◌, map, ◌==◌, arith, if◌then◌else◌,
  ==_ne,
}

abbrev pub has_signal : ℕ → List ℕ → Bool
has_signal n [] = false
has_signal n (s ∷ ss) = (s == n) || has_signal n ss

-- Each signal is there once, and none is 0.
abbrev once : List ℕ → Bool
once [] = true
once (s ∷ ss) = not (s == 0) && (not (has_signal s ss) && once ss)

-- The actions with the library's at the signals of the list.
abbrev covered : Action → List ℕ → (ℕ → Action) → ℕ → Action
covered lib ss actions n = if has_signal n ss then lib else actions n

abbrev pub entries_of : List ℕ → (ℕ → Action) → List AppSigaction
entries_of [] actions = []
entries_of (s ∷ ss) actions = record { signal = s; action = actions s } ∷ entries_of ss actions

entries_of-outside :
    (n : ℕ) (a : Action) (ss : List ℕ) (actions : ℕ → Action)
    → has_signal n ss ≡ false
    → entries_of ss (update actions n a) ≡ entries_of ss actions
entries_of-outside n a [] actions h = refl
entries_of-outside n a (s ∷ ss) actions h = ground (arith, entries_of-outside n a ss actions)

register-all :
    (lib : Action) (ss : List ℕ) (s : Signals)
    → once ss ≡ true
    → s.sigactions ≡ []
    → (f : ℕ → Action) × (register lib (map blank_entry ss) s
        ≡ ok (0, entries_of ss s.installed) (record s { installed = f; sigactions = [] }))
      × ((n : ℕ) → f n ≡ covered lib ss s.installed n)
unfolding register real_sigaction
register-all lib [] s o e = (s.installed, rw (← e) refl, λ n. refl)
register-all lib (n ∷ ns) s o e =
    let (f, run, is) =
      register-all lib ns (record s { installed = update s.installed n lib; sigactions = [] })
        (ground arith) refl in
    (
      f,
      rw (==_ne n 0 (ground arith), e, run, entries_of-outside n lib ns s.installed (ground arith))
          refl,
      λ k. ground (arith, is k),
    )

unbroken : (b broken : Bool) → broken ≡ false → (b && broken) ≡ false
unbroken true broken p = p
unbroken false broken p = refl

reset-all :
    (ss : List ℕ) (actions : ℕ → Action) (broken : Bool) (s : Signals)
    → once ss ≡ true
    → broken ≡ false
    → s.sigactions ≡ []
    → (f : ℕ → Action) × (reset ss (entries_of ss actions) broken s
        ≡ ok 0 (record s { installed = f; sigactions = [] }))
      × ((n : ℕ) → f n ≡ (if has_signal n ss then actions n else s.installed n))
unfolding reset real_sigaction
reset-all [] actions broken s o p e = (s.installed, rw (← e) refl, λ n. refl)
reset-all (n ∷ ns) actions broken s o p e =
    let (f, run, is) =
      reset-all ns actions broken
        (record s { installed = update s.installed n (actions n); sigactions = [] }) (ground arith)
        p refl in
    (
      f,
      rw (==_ne n 0 (ground arith), unbroken (n == sigpipe) broken p, e, run) refl,
      λ k. ground (arith, is k),
    )

-- With a kernel that accepts every action and without a broken pipe, setting up the handlers succeeds:
-- the library's action is then installed for each signal of the list and no other, and the
-- entry of each keeps the action there was. Uninstalling them from there succeeds, and leaves every
-- signal with the action that it had before.
pub uninstall_signal_handlers-setup_signal_handlers :
    (signal_entry_point : Ptr) (indeterminate : Action) (s : Signals)
    → s.sigactions ≡ []
    → s.pipe_write_failure ≡ false
    → (s' s'' : Signals) × (setup_signal_handlers signal_entry_point indeterminate s ≡ ok 0 s')
      × ((n : ℕ)
          → s'.installed n ≡ (
              if has_signal n signals
              then lib_action signal_entry_point indeterminate
              else s.installed n))
      × (s'.app_actions ≡ entries_of signals s.installed)
      × (uninstall_signal_handlers s' ≡ ok 0 s'')
      × ((n : ℕ) → s''.installed n ≡ s.installed n)
unfolding setup_signal_handlers uninstall_signal_handlers
uninstall_signal_handlers-setup_signal_handlers signal_entry_point indeterminate s e p =
    let lib = lib_action signal_entry_point indeterminate in
    let (f, run, is) = register-all lib signals s refl e in
    let s' = record s {
      installed = f;
      sigactions = [];
      app_actions = entries_of signals s.installed;
      default_lib_action = lib;
    } in
    let (g, run', is') = reset-all signals s.installed s'.pipe_write_failure s' refl p refl in
    (
      s',
      record s' { installed = g },
      rw run refl,
      is,
      refl,
      rw run' refl,
      λ n. ground (arith, is n, is' n),
    )
