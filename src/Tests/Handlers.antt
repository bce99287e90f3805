-- ===== src/Tests/Handlers.antt =====
-- The theorems on the signal handlers at concrete inputs.
use udi.Cmd.{ok}
use udi.Format.{ℤ}
use udi.Handler.{Library, with_debuggee, signal_entry}
use udi.Handler.Passed.{signal_entry-post_continue_hook}
use udi.Machine.{Machine, maperr, update}
use udi.Msg.Debuggee.{Debuggee, post_continue_hook}
use udi.Tests.Samples.{machine, cbor, debuggee}
use udi.X86.{Instruction}
use udi.Signals.{
  SignalSet, full_set, sig_dfl, Action, AppSigaction, Signals, einval, signals, lib_action,
  is_intercepted, find_app_action, sigaction, app_signal_handler, setup_signal_handlers,
  uninstall_signal_handlers,
}
use udi.Signals.Delivery.{after_call, app_signal_handler-first}
use udi.Signals.Handlers.{has_signal, entries_of, uninstall_signal_handlers-setup_signal_handlers}
use udi.Signals.Wrapper.{sigaction-find_app_action, sigaction-unhandled}
use udi.Prelude.{
  Option, ℕ, ◌+◌, ◌≡◌, refl, true, false, none, some, List, [], ◌∷◌, ◌==◌, if◌then◌else◌, arith,
}

abbrev pub no_signals : SignalSet
no_signals n = false

abbrev pub handled_at : ℕ → Action
handled_at handler = record { sa_handler = handler; sa_mask = no_signals; sa_flags = 0 }

-- A process that handles each signal at an address of its own.
abbrev process : Signals
process = record {
  app_actions = [];
  default_lib_action = handled_at 0;
  pipe_write_failure = false;
  installed = λ n. handled_at (n + 4096);
  blocked = no_signals;
  sigactions = [];
  sigmasks = [];
  calls = [];
}

-- One with entries for two signals.
abbrev pub two_entries : List AppSigaction
two_entries =
    record { signal = 1; action = handled_at 4097 }
    ∷ record { signal = 2; action = handled_at 4098 }
    ∷ []

abbrev pub handling : Signals
handling = record process { app_actions = two_entries; default_lib_action = handled_at 9000 }

found_test : find_app_action 2 two_entries none ≡ some (handled_at 4098)
unfolding find_app_action
found_test = refl

unknown_test : is_intercepted 34 two_entries ≡ false
unfolding is_intercepted
unknown_test = refl

uninstall_signal_handlers-setup_signal_handlers_example :
    (s' s'' : Signals) × (setup_signal_handlers 9000 (handled_at 7) process ≡ ok 0 s')
    × ((n : ℕ)
        → s'.installed n
          ≡ (if has_signal n signals then lib_action 9000 (handled_at 7) else process.installed n))
    × (s'.app_actions ≡ entries_of signals process.installed)
    × (uninstall_signal_handlers s' ≡ ok 0 s'')
    × ((n : ℕ) → s''.installed n ≡ process.installed n)
uninstall_signal_handlers-setup_signal_handlers_example =
    uninstall_signal_handlers-setup_signal_handlers 9000 (handled_at 7) process refl refl

sigaction-find_app_action_example :
    (s' : Signals) × (sigaction 2 (some (handled_at 5000)) true handling
      ≡ ok (0, some (handled_at 4098)) s')
    × ((n : ℕ)
        → find_app_action n s'.app_actions none
          ≡ (if 2 == n then some (handled_at 5000) else find_app_action n two_entries none))
    × ((n : ℕ) → s'.installed n ≡ (if 2 == n then handled_at 9000 else handling.installed n))
    × (s'.blocked ≡ handling.blocked)
    × (s'.calls ≡ [])
sigaction-find_app_action_example =
    sigaction-find_app_action 2 (handled_at 5000) handling (handled_at 4098) refl refl found_test

sigaction-unhandled_example :
    (sigaction 34 (some (handled_at 5000)) true (record handling { sigactions = [] })
      ≡ ok
          (einval, some (handled_at 4130))
          (record handling {
            installed =
                update (update handling.installed 34 (handled_at 5000)) 34 (handled_at 9000);
            blocked = full_set;
            sigactions = [];
            sigmasks = [];
          }))
    × (sigaction 34 (some (handled_at 5000)) true (record handling { sigactions = 22 ∷ [] })
        ≡ ok (0, none) (record handling { sigactions = []; sigmasks = [] }))
sigaction-unhandled_example =
    sigaction-unhandled 34 (handled_at 5000) handling 22 [] refl unknown_test (ground arith)

app_signal_handler-first_example :
    app_signal_handler no_signals 2 handling
    ≡ ok tt (if 4097 == sig_dfl then handling else after_call handling (handled_at 4097) 2)
app_signal_handler-first_example =
    app_signal_handler-first handling no_signals 2 (handled_at 4098)
      (record { signal = 1; action = handled_at 4097 })
      (record { signal = 2; action = handled_at 4098 } ∷ []) refl found_test (ground arith) refl

abbrev pub library : Library
library = record {
  barrier = record {
    shared = record { debuggee = debuggee machine []; sync_var = 0 };
    kills = [];
    writes = [];
    reads = [];
    signalled = [];
    released = [];
    triggers = 0;
  };
  selects = [];
  signals = handling;
  udi_enabled = true;
}

abbrev pub no_instruction : Machine → ℕ → Option Instruction
no_instruction m pc = none

abbrev pub no_strerror : ℤ → List ℕ
no_strerror e = []

signal_entry-post_continue_hook_example :
    (d' : Debuggee) × (post_continue_hook 2 (debuggee machine []) ≡ ok tt d')
    × (d'.killed ≡ 2 ∷ [])
    × (signal_entry cbor no_instruction no_strerror 8192 no_signals 2 maperr
          (λ n. 71)
          (with_debuggee d' library)
        ≡ ok
            (λ n. 71)
            (with_debuggee
              (record d' { pass_signal = 0 })
              (record library { signals = after_call handling (handled_at 4097) 2 })))
signal_entry-post_continue_hook_example =
    signal_entry-post_continue_hook cbor no_instruction no_strerror 8192 no_signals 2 maperr
      (λ n. 71) library (after_call handling (handled_at 4097) 2) refl refl (ground arith)
      (app_signal_handler-first handling no_signals 2 (handled_at 4098)
        (record { signal = 1; action = handled_at 4097 })
        (record { signal = 2; action = handled_at 4098 } ∷ []) refl found_test (ground arith) refl)
