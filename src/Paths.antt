-- ===== src/Paths.antt =====
-- The names of the pipes in the file system of libudirt/src/udirt-posix.c: `get_thread_dir` and
-- `get_thread_file`. Memory that is allocated holds anything: `garbage` is what.
pub mod Whole
use udi.Format.{Arg, ℤ, u64, text, formatted_str, text_of}
use udi.Prelude.{
  ℕ, ◌+◌, Bool, Option, none, some, List, [], ◌∷◌, String, codes, if◌then◌else◌, length,
}

-- A string that is returned: NULL, undefined, or its bytes.
pub data FileName : Type 0 where
  null_path undefined : FileName
  path : List ℕ → FileName

abbrev path_of : Option (List ℕ) → FileName
path_of none = undefined
path_of (some bytes) = path bytes

abbrev then_path : FileName → (List ℕ → FileName) → FileName
then_path null_path f = null_path
then_path undefined f = undefined
then_path (path bytes) f = f bytes

module _ (strerror : ℤ → List ℕ) (can_allocate : ℕ → Bool) (garbage : ℕ → List ℕ) where
  -- A buffer on the stack.
  formatted : ℕ → String → List Arg → FileName
  formatted size format args =
      path_of (text_of (formatted_str strerror (garbage size) size (codes format) args))

  pub allocated : ℕ → String → List Arg → FileName
  allocated size format args = if can_allocate size then formatted size format args else null_path

  pub get_thread_dir : List ℕ → ℕ → FileName
  get_thread_dir basedir_name tid = then_path (formatted 32 "%x" (u64 tid ∷ [])) λ subdir_name.
      allocated (length basedir_name + 1 + length subdir_name + 1) "%s/%s"
        (text basedir_name ∷ text subdir_name ∷ [])

  pub get_thread_file : List ℕ → List ℕ → FileName
  get_thread_file thread_dir filename =
      allocated (length thread_dir + 1 + length filename + 1) "%s/%s"
        (text thread_dir ∷ text filename ∷ [])
