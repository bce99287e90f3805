-- ===== src/Filesystem.antt =====
-- The part of the file system that the library makes for a process: `create_udi_filesystem` of
-- libudirt/src/udirt-posix.c.
pub mod Calls
pub mod Named
pub mod Made
use udi.Cmd.{Cmd, ok, fault, pure, ◌>>=◌, ◌>>◌}
use udi.Files.{FileCall, Files, mkdir, mkfifo}
use udi.Format.{Arg, ℤ, int, text, pos}
use udi.Msg.Debuggee.{Debuggee, modify}
use udi.Msg.Files.{request_file_name, response_file_name, attempt, with_name}
use udi.Paths.{allocated}
use udi.Prelude.{
  ℕ, ◌+◌, Bool, Option, none, some, List, [], ◌∷◌, String, codes, ◌==◌, if◌then◌else◌, length,
}

abbrev pub enomem : ℕ
enomem = 12

abbrev pub default_udi_root_dir : List ℕ
default_udi_root_dir = codes "/tmp/udi"

abbrev pub events_file_name : List ℕ
events_file_name = codes "events"

abbrev pub pid_str_len : ℕ
pid_str_len = 10

-- `UDI_ROOT_DIR`, by what `getenv` returns; the copy of the default is written without a test for NULL.
with_root_dir : Option (List ℕ) → (List ℕ → Cmd Debuggee ℕ) → Cmd Debuggee ℕ
with_root_dir (some root_dir) next d = next root_dir d
with_root_dir none next d =
    if d.files.can_allocate (length default_udi_root_dir + 1)
    then next default_udi_root_dir d
    else fault

-- A name in a buffer of the size; `udi_malloc` sets ENOMEM.
pub with_formatted : ℕ → String → List Arg → (List ℕ → Cmd Debuggee ℕ) → Cmd Debuggee ℕ
with_formatted size format args next d =
    with_name enomem
      (allocated d.files.strerror d.files.can_allocate d.files.garbage size format args) next d

pub try_call : FileCall → Cmd Debuggee ℕ → Cmd Debuggee ℕ
try_call call next = do errnum ← attempt call; if errnum == 0 then next else pure errnum

abbrev set_files : (Files → Files) → Debuggee → Debuggee
set_files f d = record d { files = f d.files }

-- One of the pipes; `keep` is the variable that its name is stored in.
make_pipe : List ℕ → ℕ → ℕ → List ℕ → (List ℕ → Files → Files) → Cmd Debuggee ℕ → Cmd Debuggee ℕ
make_pipe root_dir pid basedir_length filename keep next =
    with_formatted (basedir_length + length filename + 1) "%s/%d/%s"
      (text root_dir ∷ int (pos pid) ∷ text filename ∷ [])
      λ name. do modify (set_files (keep name)); try_call (mkfifo name) next

make_pipes : List ℕ → ℕ → ℕ → Cmd Debuggee ℕ
make_pipes root_dir pid basedir_length =
    make_pipe root_dir pid basedir_length request_file_name
      (λ name f. record f { requestfile_name = name })
      (make_pipe root_dir pid basedir_length response_file_name
        (λ name f. record f { responsefile_name = name })
        (make_pipe root_dir pid basedir_length events_file_name
          (λ name f. record f { eventsfile_name = name }) (pure 0)))

make_basedir : ℕ → List ℕ → Cmd Debuggee ℕ
make_basedir pid root_dir =
    let basedir_length = length root_dir + pid_str_len + 1 + 1 in
    with_formatted basedir_length "%s/%d" (text root_dir ∷ int (pos pid) ∷ []) λ name. do
      modify (set_files (λ f. record f { basedir_name = name }))
      try_call (mkdir name) (make_pipes root_dir pid basedir_length)

-- The `errno`, 0 for success. `variable` is the value of the environment variable, and `pid` the
-- process, which is positive.
pub create_udi_filesystem : Option (List ℕ) → ℕ → Cmd Debuggee ℕ
create_udi_filesystem variable pid = with_root_dir variable (make_basedir pid)
