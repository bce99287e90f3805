-- ===== src/Tests/Names.antt =====
-- The theorem on the names of pipes at a concrete input.
use udi.Format.{ℤ}
use udi.Format.Hex.{hex_value}
use udi.Paths.{path, get_thread_dir, get_thread_file}
use udi.Paths.Whole.{within, get_thread_file-get_thread_dir}
use udi.Prelude.{ℕ, zero, suc, ◌≡◌, refl, ap, Bool, true, List, [], codes, arith, length, replicate}

abbrev no_strerror : ℤ → List ℕ
no_strerror e = []

abbrev granted : ℕ → Bool
granted n = true

abbrev pub filled : ℕ → List ℕ
filled n = replicate n 7

pub filled-sized : (n : ℕ) → length (filled n) ≡ n
filled-sized zero = refl
filled-sized (suc n) = ap suc (filled-sized n)

get_thread_file-get_thread_dir_example :
    (thread_dir digits : List ℕ) × (get_thread_dir no_strerror granted filled
        (codes "/tmp/udi/41")
        0xbeef
      ≡ path thread_dir)
    × (thread_dir ≡ within (codes "/tmp/udi/41") digits)
    × (length digits ≡ 16)
    × (hex_value 0 digits ≡ 0xbeef)
    × (get_thread_file no_strerror granted filled thread_dir (codes "request")
        ≡ path (within thread_dir (codes "request")))
get_thread_file-get_thread_dir_example =
    get_thread_file-get_thread_dir no_strerror granted filled filled-sized (codes "/tmp/udi/41")
      (codes "request") 0xbeef (λ n. refl) refl refl (omega arith) (omega arith)
