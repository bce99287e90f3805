-- ===== src/Files.antt =====
-- The files of libudirt/src/udirt-posix.c: the names that it keeps, the calls that make, open and
-- delete files, and what the operating system and the allocator answer to them.
use udi.Format.{ℤ}
use udi.Msg.Read.{Pipe}
use udi.Prelude.{ℕ, Bool, List}

-- A call of the operating system with the name of a file.
pub data FileCall : Type 0 where
  mkdir mkfifo open_read open_write unlink rmdir : List ℕ → FileCall

pub record Files : Type 0 where
  pub basedir_name : List ℕ
  pub requestfile_name : List ℕ
  pub responsefile_name : List ℕ
  pub eventsfile_name : List ℕ
  -- outcomes of the calls, an `errno` each, 0 for success; an empty list means success
  pub outcomes : List ℕ
  -- the calls that succeeded, in their order
  pub done : List FileCall
  -- what stands behind the request pipes that are opened, one after another
  pub requests : List Pipe
  -- the texts of `errno`, the sizes that `udi_malloc` grants, and what memory of a size holds first
  pub strerror : ℤ → List ℕ
  pub can_allocate : ℕ → Bool
  pub garbage : ℕ → List ℕ
