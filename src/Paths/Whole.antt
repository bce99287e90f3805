-- ===== src/Paths/Whole.antt =====
-- The names are never cut.
use mathlib.Core.List.{flatten, append-nil}
use udi.Format.{Arg, ℤ, u64, text, log_varargs, log_64bit, until_nul, text_of}
use udi.Format.Bounds.{formatted_str-take}
use udi.Format.Hex.{hex_value, hex_value-log_64bit}
use udi.Format.Names.{
  no_nul, no_nul-append, take-all, log_varargs-joined, log_varargs-hex, log_64bit-no_nul,
}
use udi.Paths.{path, formatted, allocated, get_thread_dir, get_thread_file}
use udi.Prelude.{
  ℕ, ◌+◌, ◌-◌, ◌^◌, ◌<◌, ◌≡◌, refl, ◌∙◌, ap, Bool, true, some, List, [], ◌∷◌, ◌++◌, String, codes,
  arith, length, length-append, drop, if_true,
}

until_nul-append : (w rest : List ℕ) → no_nul w ≡ true → until_nul (w ++ (0 ∷ rest)) ≡ w
unfolding until_nul
until_nul-append [] rest h = refl
until_nul-append (c ∷ cs) rest h = ground (arith, until_nul-append cs rest)

-- The bytes of a name in a directory.
abbrev pub within : List ℕ → List ℕ → List ℕ
within dir name = dir ++ (0x2f ∷ name)

-- The directory of a thread.
abbrev pub thread_dir_of : List ℕ → ℕ → List ℕ
thread_dir_of basedir_name tid = within basedir_name (flatten (log_64bit tid))

flatten-joined : (dir name : List ℕ) → flatten (dir ∷ (0x2f ∷ []) ∷ name ∷ []) ≡ within dir name
unfolding flatten
flatten-joined dir name = rw (append-nil name) refl

module _ (strerror : ℤ → List ℕ) (can_allocate : ℕ → Bool) (garbage : ℕ → List ℕ)
    (sized : (n : ℕ) → length (garbage n) ≡ n) where
  -- A buffer that is larger than the text holds all of it.
  formatted-whole :
      (size : ℕ) (format : String) (args : List Arg) (chunks : List (List ℕ))
      → log_varargs strerror (codes format) args ≡ some chunks
      → length (flatten chunks) < size
      → size < 2 ^ 64
      → no_nul (flatten chunks) ≡ true
      → formatted strerror can_allocate garbage size format args ≡ path (flatten chunks)
  unfolding formatted text_of
  formatted-whole size format args chunks e fits small clean =
      rw
        (
          formatted_str-take strerror (garbage size) size (codes format) args chunks e (omega arith)
              (omega (arith, sized size)) small,
          take-all (size - 1) (flatten chunks) (omega arith),
          until_nul-append (flatten chunks) (drop (length (flatten chunks) + 1) (garbage size))
              clean,
        )
        refl

  pub allocated-whole :
      (size : ℕ) (format : String) (args : List Arg) (chunks : List (List ℕ))
      → ((n : ℕ) → can_allocate n ≡ true)
      → log_varargs strerror (codes format) args ≡ some chunks
      → length (flatten chunks) < size
      → size < 2 ^ 64
      → no_nul (flatten chunks) ≡ true
      → allocated strerror can_allocate garbage size format args ≡ path (flatten chunks)
  unfolding allocated
  allocated-whole size format args chunks granted e fits small clean =
      if_true _ _ _ (granted size) ∙ formatted-whole size format args chunks e fits small clean

  joined-whole :
      (dir name : List ℕ)
      → ((n : ℕ) → can_allocate n ≡ true)
      → no_nul dir ≡ true
      → no_nul name ≡ true
      → length dir + length name + 2 < 2 ^ 64
      → allocated strerror can_allocate garbage
          (length dir + 1 + length name + 1)
          "%s/%s"
          (text dir ∷ text name ∷ [])
        ≡ path (within dir name)
  unfolding allocated
  joined-whole dir name granted clean clean' small =
      if_true _ _ _ (granted (length dir + 1 + length name + 1))
      ∙ (formatted-whole (length dir + 1 + length name + 1) "%s/%s" (text dir ∷ text name ∷ [])
            (dir ∷ (0x2f ∷ []) ∷ name ∷ []) (log_varargs-joined strerror dir name)
            (omega (arith, ap length (flatten-joined dir name), length-append dir (0x2f ∷ name)))
            (omega arith)
            (ap no_nul (flatten-joined dir name)
              ∙ (no_nul-append dir (0x2f ∷ name) ∙ rw (clean, clean') refl))
          ∙ ap path (flatten-joined dir name))

  -- The directory of a thread, of its 64-bit id.
  pub get_thread_dir-within :
      (basedir_name : List ℕ) (tid : ℕ)
      → ((n : ℕ) → can_allocate n ≡ true)
      → no_nul basedir_name ≡ true
      → tid < 2 ^ 64
      → length basedir_name + 20 < 2 ^ 64
      → get_thread_dir strerror can_allocate garbage basedir_name tid
        ≡ path (thread_dir_of basedir_name tid)
  unfolding get_thread_dir
  get_thread_dir-within basedir_name tid granted clean wide small =
      let digits = flatten (log_64bit tid) in
      let (sixteen, _) = hex_value-log_64bit tid wide in
      rw
        (formatted-whole 32 "%x" (u64 tid ∷ []) (log_64bit tid) (log_varargs-hex strerror tid)
          (omega (arith, sixteen)) (omega arith) (log_64bit-no_nul tid))
        (joined-whole basedir_name digits granted clean (log_64bit-no_nul tid)
          (omega (arith, sixteen)))

  -- A file of that directory.
  pub get_thread_file-within :
      (basedir_name filename : List ℕ) (tid : ℕ)
      → ((n : ℕ) → can_allocate n ≡ true)
      → no_nul basedir_name ≡ true
      → no_nul filename ≡ true
      → tid < 2 ^ 64
      → length basedir_name + length filename + 20 < 2 ^ 64
      → get_thread_file strerror can_allocate garbage (thread_dir_of basedir_name tid) filename
        ≡ path (within (thread_dir_of basedir_name tid) filename)
  unfolding get_thread_file
  get_thread_file-within basedir_name filename tid granted clean clean' wide small =
      let digits = flatten (log_64bit tid) in
      let (sixteen, _) = hex_value-log_64bit tid wide in
      joined-whole (thread_dir_of basedir_name tid) filename granted
        (no_nul-append basedir_name (0x2f ∷ digits) ∙ rw (clean, log_64bit-no_nul tid) refl) clean'
        (omega (arith, sixteen, length-append basedir_name (0x2f ∷ digits)))

  -- Where memory is granted, and for a directory and a file without a NUL, a 64-bit id and lengths
  -- within a size_t, the directory of a thread is the base directory, a slash and the sixteen
  -- hexadecimal digits of the id, and the file is that directory, a slash and the name: no buffer cuts
  -- them.
  pub get_thread_file-get_thread_dir :
      (basedir_name filename : List ℕ) (tid : ℕ)
      → ((n : ℕ) → can_allocate n ≡ true)
      → no_nul basedir_name ≡ true
      → no_nul filename ≡ true
      → tid < 2 ^ 64
      → length basedir_name + length filename + 20 < 2 ^ 64
      → (thread_dir digits : List ℕ) × (get_thread_dir strerror can_allocate garbage basedir_name
            tid
          ≡ path thread_dir)
        × (thread_dir ≡ within basedir_name digits)
        × (length digits ≡ 16)
        × (hex_value 0 digits ≡ tid)
        × (get_thread_file strerror can_allocate garbage thread_dir filename
            ≡ path (within thread_dir filename))
  get_thread_file-get_thread_dir basedir_name filename tid granted clean clean' wide small =
      let (sixteen, spells) = hex_value-log_64bit tid wide in
      (
        thread_dir_of basedir_name tid,
        flatten (log_64bit tid),
        get_thread_dir-within basedir_name tid granted clean wide (omega (arith, small)),
        refl,
        sixteen,
        spells,
        get_thread_file-within basedir_name filename tid granted clean clean' wide small,
      )
