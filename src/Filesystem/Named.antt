-- ===== src/Filesystem/Named.antt =====
-- The names of the files of a process are written whole.
use udi.Filesystem.Calls.{IsGranted}
use mathlib.Core.List.{flatten, append_assoc, append-nil}
use udi.Filesystem.{pid_str_len}
use udi.Format.{int, text, pos}
use udi.Format.Names.{no_nul, no_nul-append}
use udi.Format.Numbered.{
  decimal, singly, decimal-no_nul, length-decimal, log_varargs-numbered, log_varargs-numbered_file,
}
use udi.Msg.Debuggee.{Debuggee}
use udi.Paths.{path, allocated}
use udi.Paths.Whole.{within, allocated-whole}
use udi.Prelude.{
  ℕ, ◌+◌, ◌^◌, ◌<◌, ◌≡◌, refl, sym, ◌∙◌, ap, true, List, [], ◌∷◌, ◌++◌, arith, length-append,
  length,
}

flatten-singly_then :
    (ds : List ℕ) (rest : List (List ℕ)) → flatten (singly ds ++ rest) ≡ ds ++ flatten rest
unfolding flatten
flatten-singly_then [] rest = refl
flatten-singly_then (d ∷ ds) rest = ap (λ l. d ∷ l) (flatten-singly_then ds rest)

module _ (root : List ℕ) (pid : ℕ) (clean : no_nul root ≡ true) (positive : pid < 2 ^ 31)
    (short : length root + 60 < 2 ^ 64) where
  -- The base directory, and a file in it.
  abbrev pub base_dir : List ℕ
  base_dir = within root (decimal pid)

  flatten-base : flatten (root ∷ (0x2f ∷ []) ∷ (singly (decimal pid) ++ [])) ≡ base_dir
  unfolding flatten
  flatten-base = rw (flatten-singly_then (decimal pid) [], append-nil (decimal pid)) refl

  flatten-file :
      (file : List ℕ)
      → flatten (root ∷ (0x2f ∷ []) ∷ (singly (decimal pid) ++ ((0x2f ∷ []) ∷ file ∷ [])))
        ≡ within base_dir file
  unfolding flatten
  flatten-file file =
      rw (flatten-singly_then (decimal pid) ((0x2f ∷ []) ∷ file ∷ []))
        (rw (append-nil file) (sym (append_assoc root (0x2f ∷ decimal pid) (0x2f ∷ file))))

  base_dir-no_nul : no_nul base_dir ≡ true
  base_dir-no_nul = rw (no_nul-append root (0x2f ∷ decimal pid), clean, decimal-no_nul pid) refl

module _ (root : List ℕ) (pid : ℕ) (clean : no_nul root ≡ true) (positive : pid < 2 ^ 31)
    (short : length root + 60 < 2 ^ 64) where
  abbrev base : List ℕ
  base = base_dir root pid clean positive short

  pub pipe_path :
      (d : Debuggee) (file : List ℕ)
      → IsGranted d.files
      → no_nul file ≡ true
      → length file < 10
      → allocated d.files.strerror d.files.can_allocate d.files.garbage
          (length root + pid_str_len + 1 + 1 + length file + 1)
          "%s/%d/%s"
          (text root ∷ int (pos pid) ∷ text file ∷ [])
        ≡ path (within base file)
  pipe_path d file g clean' few =
      allocated-whole d.files.strerror d.files.can_allocate d.files.garbage g.sized
        (length root + pid_str_len + 1 + 1 + length file + 1) "%s/%d/%s"
        (text root ∷ int (pos pid) ∷ text file ∷ []) _ g.granted
        (log_varargs-numbered_file d.files.strerror root pid file)
        (rw (flatten-file root pid clean positive short file) (
          omega (
            arith,
            length-append base (0x2f ∷ file),
            length-append root (0x2f ∷ decimal pid),
            length-decimal pid positive,
          )))
        (omega (arith, few))
        (ap no_nul (flatten-file root pid clean positive short file)
          ∙ (no_nul-append base (0x2f ∷ file)
              ∙ rw (base_dir-no_nul root pid clean positive short, clean') refl))
      ∙ ap path (flatten-file root pid clean positive short file)

  pub base_path :
      (d : Debuggee)
      → IsGranted d.files
      → allocated d.files.strerror d.files.can_allocate d.files.garbage
          (length root + pid_str_len + 1 + 1)
          "%s/%d"
          (text root ∷ int (pos pid) ∷ [])
        ≡ path base
  base_path d g =
      allocated-whole d.files.strerror d.files.can_allocate d.files.garbage g.sized
        (length root + pid_str_len + 1 + 1) "%s/%d" (text root ∷ int (pos pid) ∷ []) _ g.granted
        (log_varargs-numbered d.files.strerror root pid)
        (rw (flatten-base root pid clean positive short)
          (omega (arith, length-append root (0x2f ∷ decimal pid), length-decimal pid positive)))
        (omega arith)
        (ap no_nul (flatten-base root pid clean positive short)
          ∙ base_dir-no_nul root pid clean positive short)
      ∙ ap path (flatten-base root pid clean positive short)
