-- ===== src/Filesystem/Made.antt =====
-- The file system of a process: its names are never cut, and its files are made in their order up to
-- the first that the operating system refuses.
use udi.Filesystem.Named.{base_dir, pipe_path, base_path}
use udi.Filesystem.Calls.{
  run_calls, IsGranted, Makes, Keeps, Keeps-IsGranted, try_call-Makes, with_formatted-path,
  nothing-Makes,
}
use udi.Cmd.{Cmd, ok}
use udi.Files.{FileCall, Files, mkdir, mkfifo}
use udi.Filesystem.{
  default_udi_root_dir, events_file_name, pid_str_len, with_root_dir, make_pipe, make_pipes,
  make_basedir, create_udi_filesystem,
}
use udi.Format.Decimal.{decimal_value}
use udi.Format.Names.{no_nul}
use udi.Format.Numbered.{decimal, decimal_value-decimal}
use udi.Msg.Debuggee.{Debuggee}
use udi.Msg.Files.{request_file_name, response_file_name}
use udi.Paths.Whole.{within}
use udi.Prelude.{
  ℕ, ◌+◌, ◌^◌, ◌<◌, ◌≡◌, refl, ◌∙◌, ap, true, Option, none, some, List, [], ◌∷◌, ◌++◌, arith,
  if_true, length,
}

module _ (root : List ℕ) (pid : ℕ) (clean : no_nul root ≡ true) (positive : pid < 2 ^ 31)
    (short : length root + 60 < 2 ^ 64) where
  abbrev base : List ℕ
  base = base_dir root pid clean positive short

  -- One pipe, and what is made after it.
  make_pipe-Makes :
      (file : List ℕ) (keep : List ℕ → Files → Files) (calls : List FileCall)
      (next : Cmd Debuggee ℕ)
      → no_nul file ≡ true
      → length file < 10
      → ((name : List ℕ) → Keeps (keep name))
      → Makes calls next
      → Makes
          (mkfifo (within base file) ∷ calls)
          (make_pipe root pid (length root + pid_str_len + 1 + 1) file keep next)
  unfolding make_pipe
  make_pipe-Makes file keep calls next clean' few keeps then_does d g =
      let made : List FileCall = mkfifo (within base file) ∷ calls in
      let k = keeps (within base file) in
      let d' : Debuggee = record d { files = keep (within base file) d.files } in
      let later =
        try_call-Makes (mkfifo (within base file)) calls next then_does d' (Keeps-IsGranted k g) in
      record {
        after = later.after;
        runs =
            with_formatted-path _ _ _ (within base file) _ d
              (pipe_path root pid clean positive short d file g clean' few)
            ∙ (later.runs
                ∙ ap (λ os. ok (run_calls made os).1 later.after) (k.same_outcomes d.files));
        calls_made =
            later.calls_made
            ∙ (ap (λ os. d'.files.done ++ (run_calls made os).0) (k.same_outcomes d.files)
                ∙ ap (λ done. done ++ (run_calls made d.files.outcomes).0) (k.same_done d.files));
        base = later.base ∙ k.same_base d.files;
      }

  abbrev pipe_calls : List FileCall
  pipe_calls =
      mkfifo (within base request_file_name)
      ∷ mkfifo (within base response_file_name)
      ∷ mkfifo (within base events_file_name)
      ∷ []

  make_pipes-Makes : Makes pipe_calls (make_pipes root pid (length root + pid_str_len + 1 + 1))
  unfolding make_pipes
  make_pipes-Makes =
      make_pipe-Makes request_file_name (λ name f. record f { requestfile_name = name }) _ _ refl
        (omega arith)
        (λ name. record {
          same_allocate = λ f. refl;
          same_garbage = λ f. refl;
          same_outcomes = λ f. refl;
          same_base = λ f. refl;
          same_done = λ f. refl;
        })
        (make_pipe-Makes response_file_name (λ name f. record f { responsefile_name = name }) _ _
          refl (omega arith)
          (λ name. record {
            same_allocate = λ f. refl;
            same_garbage = λ f. refl;
            same_outcomes = λ f. refl;
            same_base = λ f. refl;
            same_done = λ f. refl;
          })
          (make_pipe-Makes events_file_name (λ name f. record f { eventsfile_name = name }) _ _ refl
            (omega arith)
            (λ name. record {
              same_allocate = λ f. refl;
              same_garbage = λ f. refl;
              same_outcomes = λ f. refl;
              same_base = λ f. refl;
              same_done = λ f. refl;
            })
            nothing-Makes))

  abbrev all_calls : List FileCall
  all_calls = mkdir base ∷ pipe_calls

  -- `make_basedir` from its second statement on, in the state `d'` that has the name.
  make_basedir-Does :
      (d : Debuggee)
      → IsGranted d.files
      → (d' : Debuggee) × (make_basedir pid root d ≡ ok (run_calls all_calls d.files.outcomes).1 d')
        × (d'.files.done ≡ d.files.done ++ (run_calls all_calls d.files.outcomes).0)
        × (d'.files.basedir_name ≡ base)
  unfolding make_basedir
  make_basedir-Does d g =
      let d' : Debuggee = record d { files = record d.files { basedir_name = base } } in
      let later =
        try_call-Makes (mkdir base) pipe_calls _ make_pipes-Makes d'
          (record { granted = g.granted; sized = g.sized }) in
      (
        later.after,
        with_formatted-path _ _ _ base _ d (base_path root pid clean positive short d g)
            ∙ later.runs,
        later.calls_made,
        later.base,
      )

abbrev pub root_of : Option (List ℕ) → List ℕ
root_of none = default_udi_root_dir
root_of (some root_dir) = root_dir

-- The calls that make the files of a process.
pub process_calls : List ℕ → List FileCall
process_calls base =
    mkdir base
    ∷ mkfifo (within base request_file_name)
    ∷ mkfifo (within base response_file_name)
    ∷ mkfifo (within base events_file_name)
    ∷ []

with_root_dir-root_of :
    (variable : Option (List ℕ)) (next : List ℕ → Cmd Debuggee ℕ) (d : Debuggee)
    → IsGranted d.files
    → with_root_dir variable next d ≡ next (root_of variable) d
unfolding with_root_dir
with_root_dir-root_of none next d g = if_true _ _ _ (g.granted _)
with_root_dir-root_of (some root_dir) next d g = refl

-- Where memory is granted, for a root directory (that of the environment, or the default) without a NUL
-- and of a length within a size_t, and a process number of an int: `create_udi_filesystem` makes the
-- base directory, whose name is the root directory, a slash and the decimal number of the process, and
-- in it the request, the response and the events pipe, none of the names cut, in this order and up to
-- the first call that the operating system refuses; its result is the error number of that call, 0 if there
-- is none.
pub create_udi_filesystem-made :
    (variable : Option (List ℕ)) (pid : ℕ) (d : Debuggee)
    → IsGranted d.files
    → no_nul (root_of variable) ≡ true
    → length (root_of variable) + 60 < 2 ^ 64
    → pid < 2 ^ 31
    → (base : List ℕ) × (d' : Debuggee) × (base ≡ within (root_of variable) (decimal pid))
      × (decimal_value 0 (decimal pid) ≡ pid)
      × (create_udi_filesystem variable pid d
          ≡ ok (run_calls (process_calls base) d.files.outcomes).1 d')
      × (d'.files.done ≡ d.files.done ++ (run_calls (process_calls base) d.files.outcomes).0)
      × (d'.files.basedir_name ≡ base)
unfolding create_udi_filesystem process_calls
create_udi_filesystem-made variable pid d g clean short positive =
    let (d', runs, calls_made, base) =
      make_basedir-Does (root_of variable) pid clean positive short d g in
    (
      within (root_of variable) (decimal pid),
      d',
      refl,
      decimal_value-decimal pid positive,
      with_root_dir-root_of variable (make_basedir pid) d g ∙ runs,
      calls_made,
      base,
    )
