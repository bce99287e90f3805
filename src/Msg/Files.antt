-- ===== src/Msg/Files.antt =====
-- The pipes of one thread in the file system (libudirt/src/udirt-posix.c): `thread_create_callback`
-- makes them, and `thread_death_handshake` deletes them.
pub mod Named
pub mod Deleted
use udi.Cmd.{Cmd, ok, fault, pure, ◌>>=◌, ◌>>◌}
use udi.Files.{FileCall, Files, mkdir, mkfifo, unlink, rmdir}
use udi.Format.{int, pos, text, u64}
use udi.Msg.Debuggee.{Thread, Debuggee, set_message, close, destroy_thread}
use udi.Paths.{FileName, null_path, undefined, path, get_thread_dir, get_thread_file}
use udi.Prelude.{
  ℕ, Bool, true, false, Option, none, some, List, [], ◌∷◌, ◌++◌, String, codes, ◌==◌, if◌then◌else◌,
}

abbrev pub request_file_name : List ℕ
request_file_name = codes "request"

abbrev pub response_file_name : List ℕ
response_file_name = codes "response"

abbrev first : List ℕ → ℕ
first [] = 0
first (n ∷ ns) = n

abbrev others : List ℕ → List ℕ
others [] = []
others (n ∷ ns) = ns

-- The `errno` of a call, 0 for success.
unfoldable pub attempt : FileCall → Cmd Debuggee ℕ
attempt call d =
    let errnum = first d.files.outcomes in
    ok errnum (record d {
      files = record d.files {
        outcomes = others d.files.outcomes;
        done = if errnum == 0 then d.files.done ++ (call ∷ []) else d.files.done;
      };
    })

module _ {A : Type 0} (failed : A) where
  -- A call whose failure sets a message of the name and the `errno`.
  unfoldable pub attempt_or : FileCall → String → List ℕ → Cmd Debuggee A → Cmd Debuggee A
  attempt_or call format name next = do
    errnum ← attempt call
    if errnum == 0
        then next
        else (do set_message format (text name ∷ int (pos errnum) ∷ []); pure failed)

  -- A name that was asked for: NULL fails.
  unfoldable pub with_name : FileName → (List ℕ → Cmd Debuggee A) → Cmd Debuggee A
  with_name null_path next = pure failed
  with_name undefined next = λ d. fault
  with_name (path name) next = next name

  unfoldable pub with_thread_dir : ℕ → (List ℕ → Cmd Debuggee A) → Cmd Debuggee A
  with_thread_dir tid next d =
      with_name
        (get_thread_dir d.files.strerror d.files.can_allocate d.files.garbage d.files.basedir_name
          tid)
        next d

  unfoldable pub with_thread_file : List ℕ → List ℕ → (List ℕ → Cmd Debuggee A) → Cmd Debuggee A
  with_thread_file thread_dir filename next d =
      with_name
        (get_thread_file d.files.strerror d.files.can_allocate d.files.garbage thread_dir filename)
        next d

-- True is the result 0.
unfoldable pub thread_create_callback : Thread → Cmd Debuggee Bool
thread_create_callback thr = with_thread_dir false thr.id λ thread_dir.
    attempt_or false (mkdir thread_dir) "failed to create directory %s: %e" thread_dir (
      with_thread_file false thread_dir response_file_name λ response_file.
        with_thread_file false thread_dir request_file_name λ request_file.
          attempt_or false (mkfifo request_file) "failed to create request pipe %s: %e" request_file
            (attempt_or false (mkfifo response_file) "failed to create response pipe %s: %e"
              response_file (pure true)))

unfoldable pub delete_files : Thread → Cmd Debuggee Bool
delete_files thr = with_thread_dir false thr.id λ thread_dir.
    with_thread_file false thread_dir response_file_name λ response_file.
      attempt_or false (unlink response_file) "failed to unlink %s: %e" response_file (
        with_thread_file false thread_dir request_file_name λ request_file.
          attempt_or false (unlink request_file) "failed to unlink %s: %e" request_file
            (attempt_or false (rmdir thread_dir) "failed to rmdir %s: %e" thread_dir (pure true)))

-- True is the result 0; a failure to delete files is only reported.
pub thread_death_handshake : Thread → Cmd Debuggee Bool
thread_death_handshake thr =
    if thr.dead
    then (do
      errnum ← close
      if errnum == 0 then (do _ ← delete_files thr; destroy_thread thr.self; pure true) else do
        set_message "failed to close request handle for thread %a: %e"
            (u64 thr.id ∷ int (pos errnum) ∷ [])
        pure false)
    else do
      set_message "thread %a is not dead, not completing handshake" (u64 thr.id ∷ [])
      pure false
