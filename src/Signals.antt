-- ===== src/Signals.antt =====
-- The signal handlers of libudirt/src/udirt-posix-sys.c: the table of the application's actions, the
-- wrappers of `sigaction` and `signal`, and how a signal is passed on to the application. What the
-- kernel answers are lists of outcomes that calls use up, an `errno` each, 0 for success; an
-- empty list means success. A set of signals is its membership test.
pub mod Handlers
pub mod Wrapper
pub mod Delivery
pub mod Hooks
use udi.Cmd.{Cmd, ok, fault, pure, ◌>>=◌, ◌>>◌}
use udi.Machine.{Ptr, update}
use udi.Prelude.{
  ℕ, Bool, true, false, ◌&&◌, Option, none, some, List, [], ◌∷◌, ◌++◌, map, ◌==◌, if◌then◌else◌,
}

abbrev pub SignalSet : Type 0
SignalSet = ℕ → Bool

-- `sigfillset`
abbrev pub full_set : SignalSet
full_set n = true

-- `struct sigaction`; `sa_handler` and `sa_sigaction` share one address.
pub record Action : Type 0 where
  pub sa_handler : Ptr
  pub sa_mask : SignalSet
  pub sa_flags : ℕ

abbrev pub sig_dfl : Ptr
sig_dfl = 0

abbrev pub sig_ign : Ptr
sig_ign = 1

-- `(void (*)(int))-1`
abbrev pub sig_err : Ptr
sig_err = 0xffffffffffffffff

abbrev pub einval : ℕ
einval = 22

abbrev pub sigpipe : ℕ
sigpipe = 13

-- `SA_SIGINFO | SA_NODEFER`
abbrev pub lib_flags : ℕ
lib_flags = 0x40000004

-- The numbers of x86_64 Linux: SIGHUP, SIGINT, SIGQUIT, SIGILL, SIGTRAP, SIGABRT, SIGBUS, SIGFPE,
-- SIGUSR1, SIGSEGV, SIGUSR2, SIGPIPE, SIGALRM, SIGTERM, SIGSTKFLT, SIGCHLD, SIGCONT, SIGTSTP, SIGTTIN,
-- SIGTTOU, SIGURG, SIGXCPU, SIGXFSZ, SIGVTALRM, SIGPROF, SIGWINCH, SIGIO, SIGPWR and SIGSYS.
abbrev pub signals : List ℕ
signals =
    1 ∷ 2 ∷ 3 ∷ 4 ∷ 5 ∷ 6 ∷ 7 ∷ 8 ∷ 10 ∷ 11 ∷ 12 ∷ 13 ∷ 14 ∷ 15 ∷ 16 ∷ 17 ∷ 18 ∷ 20 ∷ 21 ∷ 22 ∷ 23
    ∷ 24 ∷ 25 ∷ 26 ∷ 27 ∷ 28 ∷ 29 ∷ 30 ∷ 31 ∷ []

-- `struct app_sigaction`
pub record AppSigaction : Type 0 where
  pub signal : ℕ
  pub action : Action

-- A call of a handler of the application: its address, the signal, and the signals blocked then.
pub record Call : Type 0 where
  pub handler : Ptr
  pub signum : ℕ
  pub blocked : SignalSet

pub record Signals : Type 0 where
  pub app_actions : List AppSigaction
  pub default_lib_action : Action
  pub pipe_write_failure : Bool
  -- the kernel's actions, and the signals that it blocks
  pub installed : ℕ → Action
  pub blocked : SignalSet
  -- outcomes of `real_sigaction` and of `setsigmask`
  pub sigactions : List ℕ
  pub sigmasks : List ℕ
  pub calls : List Call

abbrev pub first : List ℕ → ℕ
first [] = 0
first (n ∷ ns) = n

abbrev pub others : List ℕ → List ℕ
others [] = []
others (n ∷ ns) = ns

abbrev install : Option Action → ℕ → (ℕ → Action) → ℕ → Action
install none signum actions = actions
install (some act) signum actions = update actions signum act

-- The `errno`, and the action that was installed.
pub real_sigaction : ℕ → Option Action → Cmd Signals (ℕ × Action)
real_sigaction signum act s =
    let errnum = first s.sigactions in
    ok (errnum, s.installed signum)
      (record s {
        sigactions = others s.sigactions;
        installed = if errnum == 0 then install act signum s.installed else s.installed;
      })

-- `setsigmask(SIG_SETMASK, ...)`: the `errno`, and the signals that were blocked.
pub setsigmask : SignalSet → Cmd Signals (ℕ × SignalSet)
setsigmask set s =
    let errnum = first s.sigmasks in
    ok (errnum, s.blocked)
      (record s { sigmasks = others s.sigmasks; blocked = if errnum == 0 then set else s.blocked })

abbrev zeroed : Action
zeroed = record { sa_handler = sig_dfl; sa_mask = λ n. false; sa_flags = 0 }

-- An entry before the handlers are registered.
abbrev pub blank_entry : ℕ → AppSigaction
blank_entry signum = record { signal = signum; action = zeroed }

-- The loop that registers the library's action: the `errno`, and the entries.
register : Action → List AppSigaction → Cmd Signals (ℕ × List AppSigaction)
register lib [] = pure (0, [])
register lib (e ∷ es) =
    if e.signal == 0 then (do (errnum, es') ← register lib es; pure (errnum, e ∷ es')) else do
      (failed, old) ← real_sigaction e.signal (some lib)
      if failed == 0
          then (do (errnum, es') ← register lib es; pure (errnum, record e { action = old } ∷ es'))
          else pure (failed, e ∷ es)

-- The loop of `uninstall_signal_handlers`, over `signals` and the entries.
reset : List ℕ → List AppSigaction → Bool → Cmd Signals ℕ
reset [] entries broken = pure 0
reset (n ∷ ns) [] broken = λ _. fault
reset (n ∷ ns) (e ∷ es) broken =
    if n == 0
    then reset ns es broken
    else if (n == sigpipe) && broken
    then reset ns es broken
    else do
      (failed, _) ← real_sigaction n (some e.action)
      if failed == 0 then reset ns es broken else pure failed

pub uninstall_signal_handlers : Cmd Signals ℕ
uninstall_signal_handlers s = reset signals s.app_actions s.pipe_write_failure s

-- The loop of `sigaction`: whether there is an entry, what the last such holds, and the entries.
unfoldable pub is_intercepted : ℕ → List AppSigaction → Bool
is_intercepted signum [] = false
is_intercepted signum (e ∷ es) = if e.signal == signum then true else is_intercepted signum es

-- The last entry of the signal.
unfoldable pub find_app_action : ℕ → List AppSigaction → Option Action → Option Action
find_app_action signum [] found = found
find_app_action signum (e ∷ es) found =
    find_app_action signum es (if e.signal == signum then some e.action else found)

abbrev replaced : Option Action → AppSigaction → AppSigaction
replaced none e = e
replaced (some act) e = record e { action = act }

store_action : ℕ → Option Action → List AppSigaction → List AppSigaction
store_action signum act [] = []
store_action signum act (e ∷ es) =
    (if e.signal == signum then replaced act e else e) ∷ store_action signum act es

-- What `*oldact` holds, unless it is NULL.
abbrev pub kept : Bool → Option Action → Option Action
kept true old = old
kept false old = none

unblock : SignalSet → Option Action → Cmd Signals (ℕ × Option Action)
unblock orig_set old = do
  (failed, _) ← setsigmask orig_set
  pure (if failed == 0 then (0, old) else (einval, old))

-- Once the library's action stands.
store_new : ℕ → Option Action → Bool → SignalSet → Action → Cmd Signals (ℕ × Option Action)
store_new signum act wants_old orig_set lib s =
    if is_intercepted signum s.app_actions
    then unblock orig_set (kept wants_old (find_app_action signum s.app_actions none))
        (record s { app_actions = store_action signum act s.app_actions })
    else ok (einval, kept wants_old (some lib)) s

reset_to_default : ℕ → Option Action → Bool → SignalSet → Action → Cmd Signals (ℕ × Option Action)
reset_to_default signum act wants_old orig_set lib s =
    (do
      (failed, _) ← real_sigaction signum (some s.default_lib_action)
      if failed == 0
          then store_new signum act wants_old orig_set lib
          else unblock orig_set (kept wants_old (some lib)))
      s

-- The wrapper: the result, and what was stored to `*oldact`, if anything; `wants_old` says that
-- `oldact` is not NULL. The result of the calls of `real_sigaction` is kept in a variable of the
-- loop's body that hides the one that is returned.
pub sigaction : ℕ → Option Action → Bool → Cmd Signals (ℕ × Option Action)
sigaction signum act wants_old = do
  (blocked, orig_set) ← setsigmask full_set
  if blocked == 0
      then (do
        (failed, lib) ← real_sigaction signum act
        if failed == 0
            then reset_to_default signum act wants_old orig_set lib
            else unblock orig_set none)
      else pure (einval, none)

call : Action → ℕ → Cmd Signals (Unit {0})
call action signum s = ok tt (record s {
  calls =
      s.calls
      ++ (record { handler = action.sa_handler; signum = signum; blocked = s.blocked } ∷ []);
})

pass_to : Action → SignalSet → ℕ → Cmd Signals (Unit {0})
pass_to action unset signum = do
  (failed, cur_set) ← setsigmask action.sa_mask
  call action signum
  _ ← setsigmask (if failed == 0 then cur_set else unset)
  pure tt

-- `app_actions->action`, the first entry's.
pass_first : List AppSigaction → SignalSet → ℕ → Cmd Signals (Unit {0})
pass_first [] unset signum = pure tt
pass_first (e ∷ es) unset signum =
    if e.action.sa_handler == sig_dfl then pure tt else pass_to e.action unset signum

pass_on : Option Action → List AppSigaction → SignalSet → ℕ → Cmd Signals (Unit {0})
pass_on none entries unset signum = pure tt
pass_on (some action) entries unset signum =
    if action.sa_handler == sig_ign then pure tt else pass_first entries unset signum

-- `unset` is what a set holds that was not set.
pub app_signal_handler : SignalSet → ℕ → Cmd Signals (Unit {0})
app_signal_handler unset signum s =
    pass_on (find_app_action signum s.app_actions none) s.app_actions unset signum s

module _ (signal_entry_point : Ptr) (indeterminate : Action) where
  abbrev pub lib_action : Action
  lib_action = record { sa_handler = signal_entry_point; sa_mask = full_set; sa_flags = lib_flags }

  pub setup_signal_handlers : Cmd Signals ℕ
  setup_signal_handlers = do
    (errnum, entries) ← register lib_action (map blank_entry signals)
    (λ s. ok errnum (record s { app_actions = entries; default_lib_action = lib_action }))

  abbrev handler_of : Option Action → Ptr
  handler_of none = indeterminate.sa_handler
  handler_of (some action) = action.sa_handler

  -- The mask and the flags of the action are never set.
  pub signal : ℕ → Ptr → Cmd Signals Ptr
  signal signum handler = do
    (result, old) ← sigaction signum (some (record indeterminate { sa_handler = handler })) true
    pure (if result == 0 then handler_of old else sig_err)
