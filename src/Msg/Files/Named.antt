-- ===== src/Msg/Files/Named.antt =====
-- Calls that succeed, and names that are written whole.
use udi.Cmd.{Cmd}
use udi.Files.{FileCall, Files}
use udi.Msg.Debuggee.{Debuggee}
use udi.Msg.Files.{attempt, attempt_or, with_name, with_thread_dir, with_thread_file}
use udi.Format.Names.{no_nul}
use udi.Paths.{path, get_thread_dir, get_thread_file}
use udi.Paths.Whole.{within, thread_dir_of, get_thread_dir-within, get_thread_file-within}
use udi.Prelude.{ℕ, ◌+◌, ◌^◌, ◌<◌, ◌≡◌, refl, true, List, [], ◌∷◌, ◌++◌, String, arith, length}

-- The state after a call that succeeded.
abbrev pub doing : Debuggee → FileCall → Debuggee
doing d call = record d {
  files = record d.files { outcomes = []; done = d.files.done ++ (call ∷ []) };
}

-- What the library relies on for the names of its files, that memory is granted and the base directory
-- is a proper and not an enormous text.
pub record IsNamed (f : Files) : Type 0 where
  pub granted : (n : ℕ) → f.can_allocate n ≡ true
  pub sized : (n : ℕ) → length (f.garbage n) ≡ n
  pub clean : no_nul f.basedir_name ≡ true
  pub short : length f.basedir_name + 30 < 2 ^ 64

pub attempt_or-doing :
    {A : Type 0} (failed : A) (call : FileCall) (format : String) (name : List ℕ)
    (next : Cmd Debuggee A) (d : Debuggee)
    → d.files.outcomes ≡ []
    → attempt_or failed call format name next d ≡ next (doing d call)
unfolding attempt_or attempt
attempt_or-doing failed call format name next d e = rw e refl

pub with_thread_dir-path :
    {A : Type 0} (failed : A) (tid : ℕ) (name : List ℕ) (next : List ℕ → Cmd Debuggee A)
    (d : Debuggee)
    → get_thread_dir d.files.strerror d.files.can_allocate d.files.garbage d.files.basedir_name tid
      ≡ path name
    → with_thread_dir failed tid next d ≡ next name d
unfolding with_thread_dir with_name
with_thread_dir-path failed tid name next d e = rw e refl

pub with_thread_file-path :
    {A : Type 0} (failed : A) (dir filename name : List ℕ) (next : List ℕ → Cmd Debuggee A)
    (d : Debuggee)
    → get_thread_file d.files.strerror d.files.can_allocate d.files.garbage dir filename ≡ path name
    → with_thread_file failed dir filename next d ≡ next name d
unfolding with_thread_file with_name
with_thread_file-path failed dir filename name next d e = rw e refl

-- A name in the directory of a thread.
pub with_thread_dir-named :
    {A : Type 0} (failed : A) (tid : ℕ) (next : List ℕ → Cmd Debuggee A) (d : Debuggee)
    → IsNamed d.files
    → tid < 2 ^ 64
    → with_thread_dir failed tid next d ≡ next (thread_dir_of d.files.basedir_name tid) d
with_thread_dir-named failed tid next d named wide =
    with_thread_dir-path failed tid (thread_dir_of d.files.basedir_name tid) next d (
      get_thread_dir-within d.files.strerror d.files.can_allocate d.files.garbage named.sized
        d.files.basedir_name tid named.granted named.clean wide (omega (arith, named.short)))

pub with_thread_file-named :
    {A : Type 0} (failed : A) (tid : ℕ) (filename : List ℕ) (next : List ℕ → Cmd Debuggee A)
    (d : Debuggee)
    → IsNamed d.files
    → tid < 2 ^ 64
    → no_nul filename ≡ true
    → length filename < 10
    → with_thread_file failed (thread_dir_of d.files.basedir_name tid) filename next d
      ≡ next (within (thread_dir_of d.files.basedir_name tid) filename) d
with_thread_file-named failed tid filename next d named wide clean few =
    with_thread_file-path failed (thread_dir_of d.files.basedir_name tid) filename
      (within (thread_dir_of d.files.basedir_name tid) filename) next d
      (get_thread_file-within d.files.strerror d.files.can_allocate d.files.garbage named.sized
        d.files.basedir_name filename tid named.granted named.clean clean wide
        (omega (arith, named.short)))

pub doing-IsNamed :
    (d : Debuggee) (call : FileCall) → IsNamed d.files → IsNamed (doing d call).files
doing-IsNamed d call named = record {
  granted = named.granted;
  sized = named.sized;
  clean = named.clean;
  short = named.short;
}
