-- ===== src/Msg/Files/Deleted.antt =====
-- The files of a thread that are deleted are those that were made.
use mathlib.Core.List.{reverse}
use udi.Cmd.{ok}
use udi.Files.{FileCall, Files, mkdir, mkfifo, unlink, rmdir}
use udi.Machine.{Ptr}
use udi.Msg.Debuggee.{Thread, Debuggee, close, has_thread, unlink_thread, destroy_thread}
use udi.Msg.Files.Named.{
  doing, IsNamed, attempt_or-doing, with_thread_dir-named, with_thread_file-named, doing-IsNamed,
}
use udi.Msg.Files.{
  request_file_name, response_file_name, thread_create_callback, delete_files,
  thread_death_handshake,
}
use udi.Paths.Whole.{within, thread_dir_of}
use udi.Prelude.{
  drop, ℕ, ◌^◌, ◌<◌, ◌≡◌, refl, ◌∙◌, ap, ◌-◌, Bool-cases, inl, inr, if_false, true, false, List, [],
  ◌∷◌, ◌++◌, map, arith,
}

-- The call that takes back another.
abbrev pub undo : FileCall → FileCall
undo (mkdir name) = rmdir name
undo (mkfifo name) = unlink name
undo call = call

abbrev pub made : List ℕ → List FileCall
made thread_dir =
    mkdir thread_dir
    ∷ mkfifo (within thread_dir request_file_name)
    ∷ mkfifo (within thread_dir response_file_name)
    ∷ []

module _ (d : Debuggee) (thr : Thread) (named : IsNamed d.files) (wide : thr.id < 2 ^ 64)
    (works : d.files.outcomes ≡ []) where
  abbrev dir : List ℕ
  dir = thread_dir_of d.files.basedir_name thr.id

  abbrev request_file : List ℕ
  request_file = within dir request_file_name

  abbrev response_file : List ℕ
  response_file = within dir response_file_name

  abbrev pub with_files : Debuggee
  with_files = doing (doing (doing d (mkdir dir)) (mkfifo request_file)) (mkfifo response_file)

  pub thread_create_callback-made : thread_create_callback thr d ≡ ok true with_files
  unfolding thread_create_callback
  thread_create_callback-made =
      with_thread_dir-named false thr.id _ d named wide
      ∙ (attempt_or-doing false (mkdir dir) _ dir _ d works
          ∙ (with_thread_file-named false thr.id response_file_name _ (doing d (mkdir dir))
                (doing-IsNamed d (mkdir dir) named) wide refl (omega arith)
              ∙ (with_thread_file-named false thr.id request_file_name _ (doing d (mkdir dir))
                    (doing-IsNamed d (mkdir dir) named) wide refl (omega arith)
                  ∙ (attempt_or-doing false (mkfifo request_file) _ request_file _
                        (doing d (mkdir dir)) refl
                      ∙ attempt_or-doing false (mkfifo response_file) _ response_file _
                          (doing (doing d (mkdir dir)) (mkfifo request_file)) refl))))

  abbrev without_files : Debuggee
  without_files = doing (doing (doing d (unlink response_file)) (unlink request_file)) (rmdir dir)

  pub delete_files-made : delete_files thr d ≡ ok true without_files
  unfolding delete_files
  delete_files-made =
      with_thread_dir-named false thr.id _ d named wide
      ∙ (with_thread_file-named false thr.id response_file_name _ d named wide refl (omega arith)
          ∙ (attempt_or-doing false (unlink response_file) _ response_file _ d works
              ∙ (with_thread_file-named false thr.id request_file_name _
                    (doing d (unlink response_file)) (doing-IsNamed d (unlink response_file) named)
                    wide refl (omega arith)
                  ∙ (attempt_or-doing false (unlink request_file) _ request_file _
                        (doing d (unlink response_file)) refl
                      ∙ attempt_or-doing false (rmdir dir) _ dir _
                          (doing (doing d (unlink response_file)) (unlink request_file)) refl))))

append_three :
    {A : Type 0} (xs : List A) (a b c : A)
    → ((xs ++ (a ∷ [])) ++ (b ∷ [])) ++ (c ∷ []) ≡ xs ++ (a ∷ b ∷ c ∷ [])
append_three [] a b c = refl
append_three (x ∷ xs) a b c = ap (λ l. x ∷ l) (append_three xs a b c)

IsNamed-eq : {f g : Files} → g ≡ f → IsNamed f → IsNamed g
IsNamed-eq e named = rw e named

destroy_thread-files :
    (self : Ptr) (d : Debuggee)
    → (d' : Debuggee) × (destroy_thread self d ≡ ok tt d') × (d'.files ≡ d.files)
unfolding destroy_thread
destroy_thread-files self d = elim (Bool-cases (has_thread self d.threads)) [
  | inl c ↦ (
    record d {
      threads = unlink_thread self d.threads;
      num_threads = d.num_threads - 1;
      closes = drop 2 d.closes;
    },
    rw c refl,
    refl,
  )
  | inr c ↦ (d, ap (ok tt) (if_false _ _ _ c), refl)
]

-- The handshake for the death of a thread whose request pipe can be closed.
thread_death_handshake-deleted :
    (d : Debuggee) (thr : Thread)
    → IsNamed d.files
    → thr.id < 2 ^ 64
    → d.files.outcomes ≡ []
    → d.closes ≡ []
    → (d' : Debuggee) × (thread_death_handshake (record thr { dead = true }) d ≡ ok true d')
      × (d'.files.done
          ≡ d.files.done ++ map undo (reverse (made (thread_dir_of d.files.basedir_name thr.id))))
unfolding thread_death_handshake close
thread_death_handshake-deleted d thr named wide works closes =
    let closed : Debuggee = record d { closes = [] } in
    let (d', destroyed, same) =
      destroy_thread-files thr.self (without_files closed thr named wide works) in
    (
      d',
      rw (closes, delete_files-made closed (record thr { dead = true }) named wide works)
          (rw destroyed refl),
      ap (λ f. f.done) same ∙ append_three d.files.done _ _ _,
    )

-- Where the names can be allocated, the base directory is a text without a NUL, and the operating
-- system refuses nothing, the callback for a new thread with a 64-bit id makes its directory and in it the two
-- pipes; and whatever happens after it, the files left alone, the handshake for the thread's death
-- deletes exactly what was made, in the opposite order, and destroys the thread.
pub thread_death_handshake-thread_create_callback :
    (d : Debuggee) (thr : Thread) (meanwhile : Debuggee → Debuggee)
    → IsNamed d.files
    → thr.id < 2 ^ 64
    → d.files.outcomes ≡ []
    → ((e : Debuggee) → (meanwhile e).files ≡ e.files)
    → ((e : Debuggee) → (meanwhile e).closes ≡ [])
    → (d' d'' : Debuggee) × (thread_create_callback thr d ≡ ok true d')
      × (d'.files.done ≡ d.files.done ++ made (thread_dir_of d.files.basedir_name thr.id))
      × (thread_death_handshake (record thr { dead = true }) (meanwhile d') ≡ ok true d'')
      × (d''.files.done
          ≡ d'.files.done ++ map undo (reverse (made (thread_dir_of d.files.basedir_name thr.id))))
thread_death_handshake-thread_create_callback d thr meanwhile named wide works same closes =
    let d' = with_files d thr named wide works in
    let e = same d' in
    let named' : IsNamed d'.files = record {
      granted = named.granted;
      sized = named.sized;
      clean = named.clean;
      short = named.short;
    } in
    let (d'', died, deleted) =
      thread_death_handshake-deleted (meanwhile d') thr (IsNamed-eq e named') wide
        (ap (λ f. f.outcomes) e) (closes d') in
    (
      d',
      d'',
      thread_create_callback-made d thr named wide works,
      append_three d.files.done _ _ _,
      died,
      deleted
          ∙ ap (λ f. f.done ++ map undo (reverse (made (thread_dir_of f.basedir_name thr.id)))) e,
    )
