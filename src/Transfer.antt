-- ===== src/Transfer.antt =====
-- Whole transfers over a pipe in pieces, `read_from` and `write_to` of libudirt/src/udirt-posix.c, and
-- what a broken pipe leads to. The request handlers use their results alone: the requests are read and
-- the responses written as if a transfer were one step. What `read` and `write` answer are lists that
-- calls use up; an empty list is a wait without end, `stuck`.
pub mod Pieces
use udi.Cmd.{Cmd, ok, stuck}
use udi.Format.{ℤ, pos, negsuc}
use udi.Signals.{SignalSet, sigpipe}
use udi.Prelude.{
  ℕ, zero, suc, ◌-◌, ◌&&◌, Bool, true, false, not, Option, none, some, List, [], ◌∷◌, ◌++◌, ltb,
  ◌==◌, if◌then◌else◌, length, take, drop,
}

abbrev pub eintr : ℕ
eintr = 4

-- What `write` returns: how many bytes it took, or an `errno`.
pub data Written : Type 0 where
  wrote refused : ℕ → Written

-- What a pipe brings to `read`: bytes, of which a call takes no more than it asked for; the end of the
-- file; an `errno`.
pub data Arrived : Type 0 where
  bytes : List ℕ → Arrived
  end_of_file : Arrived
  failed : ℕ → Arrived

pub record Writer : Type 0 where
  pub writes : List Written
  pub sent : List ℕ

-- The loop of `write_to`, for the bytes that are left: the `errno`, 0 for success.
write_loop : List Written → List ℕ → Cmd Writer ℕ
write_loop writes [] w = ok 0 (record w { writes = writes })
write_loop [] (b ∷ src) w = stuck
write_loop (wrote n ∷ later) (b ∷ src) w =
    write_loop later (drop n (b ∷ src)) (record w { sent = w.sent ++ take n (b ∷ src) })
write_loop (refused e ∷ later) (b ∷ src) w =
    let rest = write_loop later (b ∷ src) w in
    if e == eintr then rest else ok e (record w { writes = later })

pub write_to : List ℕ → Cmd Writer ℕ
write_to src w = write_loop w.writes src w

-- The loop of `read_from`, with the bytes so far and the number of those that are missing: 0, -1 for
-- the end of the file, or an `errno`, and the bytes. Of a longer piece a call takes what is missing.
read_loop : List Arrived → List ℕ → ℕ → Cmd (List Arrived) (ℤ × List ℕ)
read_loop arrived dst zero s = ok (pos 0, dst) arrived
read_loop [] dst (suc n) s = stuck
read_loop (end_of_file ∷ later) dst (suc n) s = ok (negsuc 0, dst) (end_of_file ∷ later)
read_loop (failed e ∷ later) dst (suc n) s =
    let rest = read_loop later dst (suc n) s in if e == eintr then rest else ok (pos e, dst) later
read_loop (bytes piece ∷ later) dst (suc n) s =
    let rest = read_loop later (dst ++ piece) (suc n - length piece) s in
    if ltb (suc n) (length piece)
    then ok (pos 0, dst ++ take (suc n) piece) (bytes (drop (suc n) piece) ∷ later)
    else rest

pub read_from : ℕ → Cmd (List Arrived) (ℤ × List ℕ)
read_from size arrived = read_loop arrived [] size arrived

-- What the operating system answers while a broken pipe is handled: the pending signals, unless
-- `sigpending` fails; whether the blocked signals can be had; and the `errno` behind `sigsuspend`.
pub record Pending : Type 0 where
  pub pending : Option SignalSet
  pub masked : Bool
  pub suspended : ℕ

-- What the handling leaves: `pipe_write_failure`, and the signals that are blocked in the wait for
-- SIGPIPE, if there was one.
pub record PipeFailure : Type 0 where
  pub pipe_write_failure : Bool
  pub waited_with : Option SignalSet

wait_for_sigpipe : Pending → SignalSet → PipeFailure
wait_for_sigpipe p set =
    if set sigpipe && p.masked
    then record {
      pipe_write_failure = not (p.suspended == eintr);
      waited_with = some (λ n. if n == sigpipe then false else set n);
    }
    else record { pipe_write_failure = true; waited_with = none }

pub handle_pipe_write_failure : Pending → PipeFailure
handle_pipe_write_failure p = elim p.pending [
  | none ↦ record { pipe_write_failure = true; waited_with = none }
  | some set ↦ wait_for_sigpipe p set
]
