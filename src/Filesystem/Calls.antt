-- ===== src/Filesystem/Calls.antt =====
-- Sequences of calls that stop at the first that the operating system refuses.
use mathlib.Core.List.{append_assoc, append-nil}
use udi.Cmd.{Cmd, ok, pure}
use udi.Files.{FileCall, Files}
use udi.Filesystem.{with_formatted, try_call}
use udi.Format.{Arg}
use udi.Msg.Debuggee.{Debuggee}
use udi.Msg.Files.{attempt, with_name}
use udi.Paths.{path, allocated}
use udi.Prelude.{
  ℕ, ◌≡◌, refl, sym, ◌∙◌, true, List, [], ◌∷◌, ◌++◌, String, ◌==◌, if◌then◌else◌, length,
  Bool-cases, inl, inr,
}

-- The calls that succeed of a sequence that stops at the first that is refused, and its `errno`.
pub run_calls : List FileCall → List ℕ → List FileCall × ℕ
run_calls [] outcomes = ([], 0)
run_calls (c ∷ cs) [] = let (done, errnum) = run_calls cs [] in (c ∷ done, errnum)
run_calls (c ∷ cs) (n ∷ ns) =
    let (done, errnum) = run_calls cs ns in if n == 0 then (c ∷ done, errnum) else ([], n)

-- What the library relies on for names: memory is granted.
pub record IsGranted (f : Files) : Type 0 where
  pub granted : (n : ℕ) → f.can_allocate n ≡ true
  pub sized : (n : ℕ) → length (f.garbage n) ≡ n

-- A command that makes the calls, and keeps the base directory.
pub record Does (calls : List FileCall) (m : Cmd Debuggee ℕ) (d : Debuggee) : Type 0 where
  pub after : Debuggee
  pub runs : m d ≡ ok (run_calls calls d.files.outcomes).1 after
  pub calls_made : after.files.done ≡ d.files.done ++ (run_calls calls d.files.outcomes).0
  pub base : after.files.basedir_name ≡ d.files.basedir_name

abbrev pub Makes : List FileCall → Cmd Debuggee ℕ → Type 0
Makes calls m = (d : Debuggee) → IsGranted d.files → Does calls m d

module _ (call : FileCall) (calls : List FileCall) (next : Cmd Debuggee ℕ)
    (then_does : Makes calls next) where
  tried :
      (outcomes : List ℕ) (d : Debuggee)
      → IsGranted d.files
      → d.files.outcomes ≡ outcomes
      → Does (call ∷ calls) (try_call call next) d
  unfolding try_call attempt run_calls
  tried [] d g e =
      let d' : Debuggee = record d {
        files = record d.files { outcomes = []; done = d.files.done ++ (call ∷ []) };
      } in
      let later = then_does d' (record { granted = g.granted; sized = g.sized }) in
      record {
        after = later.after;
        runs = rw e later.runs;
        calls_made = rw e (later.calls_made ∙ append_assoc d.files.done (call ∷ []) _);
        base = later.base;
      }
  tried (n ∷ ns) d g e = elim (Bool-cases (n == 0)) [
    | inl z ↦
        let d' : Debuggee = record d {
          files = record d.files { outcomes = ns; done = d.files.done ++ (call ∷ []) };
        } in
        let later = then_does d' (record { granted = g.granted; sized = g.sized }) in
        record {
          after = later.after;
          runs = rw (e, z) later.runs;
          calls_made = rw (e, z) (later.calls_made ∙ append_assoc d.files.done (call ∷ []) _);
          base = later.base;
        }
    | inr z ↦ record {
      after = record d { files = record d.files { outcomes = ns } };
      runs = rw (e, z) refl;
      calls_made = rw (e, z) (sym (append-nil d.files.done));
      base = refl;
    }
  ]

  pub try_call-Makes : Makes (call ∷ calls) (try_call call next)
  try_call-Makes d g = tried d.files.outcomes d g refl

pub with_formatted-path :
    (size : ℕ) (format : String) (args : List Arg) (name : List ℕ) (next : List ℕ → Cmd Debuggee ℕ)
    (d : Debuggee)
    → allocated d.files.strerror d.files.can_allocate d.files.garbage size format args ≡ path name
    → with_formatted size format args next d ≡ next name d
unfolding with_formatted with_name
with_formatted-path size format args name next d e = rw e refl

-- What storing a name leaves alone.
pub record Keeps (keep : Files → Files) : Type 0 where
  pub same_allocate : (f : Files) → (keep f).can_allocate ≡ f.can_allocate
  pub same_garbage : (f : Files) → (keep f).garbage ≡ f.garbage
  pub same_outcomes : (f : Files) → (keep f).outcomes ≡ f.outcomes
  pub same_base : (f : Files) → (keep f).basedir_name ≡ f.basedir_name
  pub same_done : (f : Files) → (keep f).done ≡ f.done

pub Keeps-IsGranted :
    {keep : Files → Files} {f : Files} → Keeps keep → IsGranted f → IsGranted (keep f)
Keeps-IsGranted {f} k g = record {
  granted = rw (k.same_allocate f) g.granted;
  sized = rw (k.same_garbage f) g.sized;
}

-- What returns at once makes no call.
pub nothing-Makes : Makes [] (pure 0)
unfolding run_calls
nothing-Makes d g = record {
  after = d;
  runs = refl;
  calls_made = sym (append-nil d.files.done);
  base = refl;
}
