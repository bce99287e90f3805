-- ===== src/Barrier/Exclusive.antt =====
-- That one thread at most has control, and what holds of it when the barrier is read.
pub mod Taken
pub mod Given
pub mod Answered
use mathlib.Core.Option
use udi.Barrier.{
  Shared, Read, got, end_of_file, interrupted, failed, Barrier, sentinel, threads_of, with_threads,
  get_current_thread, set_thread, sentinel_loop, read_sentinel, read_trigger_in, read_trigger,
  read_sentinels, pthread_kill, write_control, write_trigger, is_running, suspend_others,
  set_sync_var, take_control, await_release, control_of, block_in, block_other_threads, self_of,
  find_pending, thread_suspend_signal, transfer, wake_others, wait_if_suspended, clear_sync_var,
  release_in, release_other_threads,
}
use udi.Barrier.Round.{clear, take, is_listed, cleared, find_thread-cleared}
use udi.Cmd.{Run, Cmd, ok, fault, stuck, and_then, ◌>>=◌, ◌>>◌}
use udi.Machine.{Ptr}
use udi.Msg.Debuggee.{Thread}
use udi.Msg.Thread.{find_thread, change_thread}
use udi.Msg.Thread.Suspend.{find_thread-change_thread}
use udi.Prelude.{
  ℕ, zero, suc, ◌≡◌, ◌≢◌, refl, sym, ◌∙◌, Bool, true, false, not, ◌&&◌, ◌||◌, Option, none, some,
  List, [], ◌∷◌, arith, ◌==◌, ==_ne, ltb, if◌then◌else◌, Bool-cases, inl, inr,
}

abbrev pub flag_of : Option Thread → Bool
flag_of none = false
flag_of (some t) = t.control_thread

-- No thread but `p` has control.
unfoldable pub Only : Ptr → List Thread → Type 0
Only p ts = (q : Ptr) → q ≢ p → flag_of (find_thread q ts) ≡ false

-- One thread at most has control.
unfoldable pub IsExclusive : List Thread → Type 0
IsExclusive ts = (p : Ptr) × Only p ts

-- What other threads do while this one reads leaves at most one with control.
unfoldable pub Keeps : List Read → Type 0
Keeps [] = Unit
Keeps (got trigger meanwhile ∷ later) =
    ((s : Shared) → IsExclusive s.debuggee.threads → IsExclusive (meanwhile s).debuggee.threads)
    × Keeps later
Keeps (_ ∷ later) = Keeps later

unfoldable pub IsSafe : Barrier → Type 0
IsSafe b = IsExclusive (threads_of b) × Keeps b.reads

-- What holds of the state in which a function returns, if it does.
pub After {κ} : {A : Type 0} → (Barrier → Type κ) → Run Barrier A → Type κ
After P (ok a b) = P b
After P fault = Unit
After P stuck = Unit

pub After-and_then {κ ι} :
    {A B : Type 0} (P : Barrier → Type κ) (Q : Barrier → Type ι) (r : Run Barrier A)
    (f : A → Cmd Barrier B)
    → After P r
    → ((a : A) (b : Barrier) → P b → After Q (f a b))
    → After Q (and_then r f)
unfolding After
After-and_then P Q (ok a b) f h next = next a b h
After-and_then P Q fault f h next = tt
After-and_then P Q stuck f h next = tt

pub After-if :
    (c : Bool) {A : Type 0} (P : Barrier → Type 0) (x y : Run Barrier A)
    → After P x
    → After P y
    → After P (if c then x else y)
After-if true P x y h k = h
After-if false P x y h k = k

sentinel_loop-IsSafe :
    (rs : List Read) (b : Barrier)
    → IsExclusive (threads_of b)
    → Keeps rs
    → After IsSafe (sentinel_loop rs b)
unfolding After sentinel_loop Keeps IsSafe
sentinel_loop-IsSafe [] b e k = tt
sentinel_loop-IsSafe (interrupted ∷ later) b e k = sentinel_loop-IsSafe later b e k
sentinel_loop-IsSafe (end_of_file ∷ later) b e k = tt
sentinel_loop-IsSafe (failed ∷ later) b e k = tt
sentinel_loop-IsSafe (got trigger meanwhile ∷ later) b e k =
    elim (Bool-cases (trigger == sentinel)) [ inl c ↦ rw c (k.0 b.shared e, k.1) | inr c ↦ rw c tt ]

pub read_sentinel-IsSafe : (b : Barrier) → IsSafe b → After IsSafe (read_sentinel b)
unfolding read_sentinel IsSafe
read_sentinel-IsSafe b s = sentinel_loop-IsSafe b.reads b s.0 s.1

pub read_trigger_in-IsSafe :
    (rs : List Read) (b : Barrier)
    → IsExclusive (threads_of b)
    → Keeps rs
    → After IsSafe (read_trigger_in rs b)
unfolding After read_trigger_in Keeps IsSafe
read_trigger_in-IsSafe [] b e k = tt
read_trigger_in-IsSafe (interrupted ∷ later) b e k = tt
read_trigger_in-IsSafe (end_of_file ∷ later) b e k = tt
read_trigger_in-IsSafe (failed ∷ later) b e k = tt
read_trigger_in-IsSafe (got trigger meanwhile ∷ later) b e k =
    elim (Bool-cases (trigger == sentinel)) [ inl c ↦ rw c (k.0 b.shared e, k.1) | inr c ↦ rw c tt ]

pub read_sentinels-IsSafe : (n : ℕ) (b : Barrier) → IsSafe b → After IsSafe (read_sentinels n b)
unfolding read_sentinels After
read_sentinels-IsSafe zero b s = s
read_sentinels-IsSafe (suc n) b s =
    After-and_then IsSafe IsSafe (read_sentinel b) (λ _. read_sentinels n)
      (read_sentinel-IsSafe b s) (λ a b' s'. read_sentinels-IsSafe n b' s')

-- The threads and the reads of a state.
abbrev pub Has : List Thread → List Read → Barrier → Type 0
Has ts rs b = (threads_of b ≡ ts) × (b.reads ≡ rs)
