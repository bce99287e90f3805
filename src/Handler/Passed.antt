-- ===== src/Handler/Passed.antt =====
-- How a signal of the debugger reaches the application: a continue request sends it, and the handler of
-- the library passes it on.
use udi.Cmd.{ok}
use udi.Format.{ℤ}
use udi.Handler.{Library, debuggee_of, with_debuggee, on_signals, pass_to_application, signal_entry}
use udi.Machine.{Machine, SiCode}
use udi.Msg.{Cbor}
use udi.Msg.Debuggee.{Debuggee, post_continue_hook}
use udi.Register.{Context}
use udi.Signals.{SignalSet, Signals, sigpipe, app_signal_handler}
use udi.X86.{Instruction}
use udi.Prelude.{
  ℕ, ◌≡◌, ◌≢◌, refl, false, not, ◌&&◌, Option, List, [], ◌∷◌, ◌++◌, ◌==◌, ==_ne, ap, ◌∙◌, if_true,
  if_false,
}

-- In a process that is not exiting and whose pipes are not broken, a continue with a signal sends the
-- signal to the process; when it arrives, whatever it is, the library passes it to the application as
-- `app_signal_handler` does, enabled or not, reports and changes nothing else, and the next signal
-- is not passed on.
pub signal_entry-post_continue_hook :
    (cbor : Cbor) (disassemble : Machine → ℕ → Option Instruction) (strerror : ℤ → List ℕ)
    (abort_label : ℕ) (unset : SignalSet) (sig : ℕ) (code : SiCode) (context : Context)
    (l : Library) (s : Signals)
    → Debuggee.exiting (debuggee_of l) ≡ false
    → Debuggee.pipe_write_failure (debuggee_of l) ≡ false
    → sig ≢ 0
    → app_signal_handler unset sig
        (record l.signals { pipe_write_failure = Debuggee.pipe_write_failure (debuggee_of l) })
      ≡ ok tt s
    → (d' : Debuggee) × (post_continue_hook sig (debuggee_of l) ≡ ok tt d')
      × (d'.killed ≡ Debuggee.killed (debuggee_of l) ++ (sig ∷ []))
      × (signal_entry cbor disassemble strerror abort_label unset sig code context
            (with_debuggee d' l)
          ≡ ok context (with_debuggee (record d' { pass_signal = 0 }) (record l { signals = s })))
unfolding post_continue_hook signal_entry pass_to_application on_signals
signal_entry-post_continue_hook cbor disassemble strerror abort_label unset sig code context l s
      running whole ne passed =
    (
      record (debuggee_of l) {
        pass_signal = sig;
        killed = Debuggee.killed (debuggee_of l) ++ (sig ∷ []);
      },
      ap (ok tt) (if_false _ _ _ running),
      refl,
      if_false (Debuggee.pipe_write_failure (debuggee_of l) && (sig == sigpipe)) _ _ (rw whole refl)
          ∙ (if_true (not (sig == 0)) _ _ (rw (==_ne sig 0 ne) refl) ∙ rw passed refl),
    )
