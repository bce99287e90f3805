-- ===== src/Runtime/Wait.antt =====
-- `wait_and_execute_command` as an unbounded loop.
use udi.Msg.Write.{udi_req_continue}
use udi.Cmd.{Run, ok, fault, stuck, pure, and_then, ◌>>◌}
use udi.Format.{ℤ}
use udi.Machine.{Ptr, Machine}
use udi.Msg.{Cbor}
use udi.Msg.Debuggee.{Status, success, error, failure, Debuggee, set_message}
use udi.Runtime.{
  Select, interrupted, failed, none_ready, ready, Process, on_run, on_debuggee, select_loop,
  block_for_request, more_reqs, execute, after_request, after_block, wait_loop,
  wait_and_execute_command,
}
use udi.X86.{Instruction}
use udi.Prelude.{
  ℕ, zero, suc, Bool, true, false, not, ◌≤◌, ◌<◌, ◌≡◌, ◌≢◌, ◌==◌, ap, sym, ◌∙◌, refl, Option, List,
  [], ◌∷◌, arith, length, Bool-cases, inl, inr,
}

-- A run leaves fewer than `n` outcomes of `select`, where it returns.
abbrev Leaves : {A : Type 0} → ℕ → Run Process A → Type 0
Leaves n (ok a p) = length p.selects < n
Leaves n fault = Unit
Leaves n stuck = Unit

Leaves-ok :
    {A : Type 0} (n : ℕ) (r : Run Process A) (a : A) (p : Process)
    → Leaves n r
    → r ≡ ok a p
    → length p.selects < n
Leaves-ok n r a p h e = rw e at h

Leaves-suc : {A : Type 0} (n : ℕ) (r : Run Process A) → Leaves n r → Leaves (suc n) r
Leaves-suc n (ok a p) h = omega arith
Leaves-suc n fault h = tt
Leaves-suc n stuck h = tt

select_loop-Leaves :
    (thr : Ptr) (selects : List Select) (p : Process)
    → Leaves (length selects) (select_loop thr selects p)
unfolding select_loop
select_loop-Leaves thr [] p = tt
select_loop-Leaves thr (interrupted ∷ later) p =
    Leaves-suc (length later) (select_loop thr later p) (select_loop-Leaves thr later p)
select_loop-Leaves thr (failed ∷ later) p = omega arith
select_loop-Leaves thr (none_ready ∷ later) p = omega arith
select_loop-Leaves thr (ready process set ∷ later) p = omega arith

abbrev returns_or_waits : {A : Type 0} → Run Process A → Bool
returns_or_waits (ok a p) = true
returns_or_waits fault = false
returns_or_waits stuck = true

select_loop-returns_or_waits :
    (thr : Ptr) (selects : List Select) (p : Process)
    → returns_or_waits (select_loop thr selects p) ≡ true
unfolding select_loop
select_loop-returns_or_waits thr [] p = refl
select_loop-returns_or_waits thr (interrupted ∷ later) p = select_loop-returns_or_waits thr later p
select_loop-returns_or_waits thr (failed ∷ later) p = refl
select_loop-returns_or_waits thr (none_ready ∷ later) p = refl
select_loop-returns_or_waits thr (ready process set ∷ later) p = refl

on_debuggee-Leaves :
    {A : Type 0} (p : Process) (r : Run Debuggee A) → Leaves (suc (length p.selects)) (on_run p r)
on_debuggee-Leaves p (ok a d) = omega arith
on_debuggee-Leaves p fault = tt
on_debuggee-Leaves p stuck = tt

module _ (cbor : Cbor) (disassemble : Machine → ℕ → Option Instruction)
    (strerror : ℤ → List ℕ) where
  execute-Leaves :
      (thr : Ptr) (p : Process)
      → Leaves (suc (length p.selects)) (execute cbor disassemble strerror thr p)
  unfolding execute
  execute-Leaves thr p = on_debuggee-Leaves p _

  -- The loop of the source, with a request at a time: what a wait for a request that starts with `thr` in
  -- the state `p` ends in.
  pub data Serves : Ptr → Process → Run Process (Status × Ptr) → Type 0 where
    blocked : {thr : Ptr} {p : Process} → block_for_request thr p ≡ stuck → Serves thr p stuck
    unready :
        {thr thr' : Ptr} {p p' : Process} {status : Status}
        → block_for_request thr p ≡ ok (status, thr') p'
        → status ≢ success
        → Serves thr p
            ((do on_debuggee (set_message "failed to wait for request" []); pure (error, thr')) p')
    crashed :
        {thr thr' : Ptr} {p p' : Process}
        → block_for_request thr p ≡ ok (success, thr') p'
        → execute cbor disassemble strerror thr' p' ≡ fault
        → Serves thr p fault
    unanswered :
        {thr thr' : Ptr} {p p' : Process}
        → block_for_request thr p ≡ ok (success, thr') p'
        → execute cbor disassemble strerror thr' p' ≡ stuck
        → Serves thr p stuck
    refused :
        {thr thr' : Ptr} {p p' p'' : Process} {type : ℕ}
        → block_for_request thr p ≡ ok (success, thr') p'
        → execute cbor disassemble strerror thr' p' ≡ ok (error, type) p''
        → Serves thr p (ok (error, thr') p'')
    continued :
        {thr thr' : Ptr} {p p' p'' : Process} {result : Status}
        → block_for_request thr p ≡ ok (success, thr') p'
        → execute cbor disassemble strerror thr' p' ≡ ok (result, udi_req_continue) p''
        → result ≢ error
        → Serves thr p (ok (result, thr') p'')
    served :
        {thr thr' : Ptr} {p p' p'' : Process} {result : Status} {type : ℕ}
        {end : Run Process (Status × Ptr)}
        → block_for_request thr p ≡ ok (success, thr') p'
        → execute cbor disassemble strerror thr' p' ≡ ok (result, type) p''
        → result ≢ error
        → type ≢ udi_req_continue
        → Serves thr' p'' end
        → Serves thr p end

  module _ (k : ℕ) (thr thr' : Ptr) (p p' p'' : Process)
      (rest : (q : Process)
        → length q.selects < k
        → Serves thr' q (wait_loop cbor disassemble strerror k thr' q))
      (at : block_for_request thr p ≡ ok (success, thr') p') (less : length p''.selects < k) where
    after_answer :
        (result : Status) (type : ℕ)
        → more_reqs result type ≡ not (type == udi_req_continue)
        → result ≢ error
        → execute cbor disassemble strerror thr' p' ≡ ok (result, type) p''
        → Serves thr p (
            after_request cbor disassemble strerror
              (wait_loop cbor disassemble strerror k)
              thr'
              (result, type)
              p'')
    unfolding after_request
    after_answer result type more ne done = elim (Bool-cases (type == udi_req_continue)) [
      | inl c ↦
          let e : type ≡ udi_req_continue = ground arith in
          rw (more, c) (continued at (rw e at done) ne)
      | inr c ↦ rw (more, c) (served at done ne (ground arith) (rest p'' less))
    ]

    after_request-Serves :
        (result : Status) (type : ℕ)
        → execute cbor disassemble strerror thr' p' ≡ ok (result, type) p''
        → Serves thr p (
            after_request cbor disassemble strerror
              (wait_loop cbor disassemble strerror k)
              thr'
              (result, type)
              p'')
    unfolding more_reqs
    after_request-Serves success type done =
        after_answer success type refl (λ e. absurd (ground arith)) done
    after_request-Serves failure type done =
        after_answer failure type refl (λ e. absurd (ground arith)) done
    after_request-Serves error type done = unfold after_request in refused at done

  and_then-Serves :
      (k : ℕ) {thr thr' : Ptr} {p p' : Process}
      → ((q : Process)
          → length q.selects < k
          → Serves thr' q (wait_loop cbor disassemble strerror k thr' q))
      → block_for_request thr p ≡ ok (success, thr') p'
      → length p'.selects < k
      → (r : Run Process (Status × ℕ)) → execute cbor disassemble strerror thr' p' ≡ r
      → Serves thr p (
          and_then r
            (after_request cbor disassemble strerror (wait_loop cbor disassemble strerror k) thr'))
  and_then-Serves k {thr} {thr'} {p} {p'} rest at less (ok (result, type) p'') e =
      after_request-Serves k thr thr' p p' p'' rest at
        (omega (arith, Leaves-ok _ _ (result, type) p'' (execute-Leaves _ p') e)) result type e
  and_then-Serves k rest at less fault e = crashed at e
  and_then-Serves k rest at less stuck e = unanswered at e

  after_block-Serves :
      (k : ℕ) (thr : Ptr) (p : Process)
      → ((thr' : Ptr) (q : Process)
          → length q.selects < k
          → Serves thr' q (wait_loop cbor disassemble strerror k thr' q))
      → length p.selects ≤ k
      → (r : Run Process (Status × Ptr)) → block_for_request thr p ≡ r
      → Serves thr p (
          and_then r
            (after_block cbor disassemble strerror (wait_loop cbor disassemble strerror k)))
  unfolding after_block block_for_request
  after_block-Serves k thr p rest h (ok (success, thr') p') e =
      and_then-Serves k (rest thr') e
        (omega (arith, Leaves-ok _ _ (success, thr') p' (select_loop-Leaves thr p.selects p) e)) _
        refl
  after_block-Serves k thr p rest h (ok (error, thr') p') e = unready e (λ c. absurd (ground arith))
  after_block-Serves k thr p rest h (ok (failure, thr') p') e =
      unready e (λ c. absurd (ground arith))
  after_block-Serves k thr p rest h fault e =
      absurd
        (ground (arith, ap returns_or_waits (sym e) ∙ select_loop-returns_or_waits thr p.selects p))
  after_block-Serves k thr p rest h stuck e = blocked e

  wait_loop-Serves :
      (k : ℕ) (thr : Ptr) (p : Process)
      → length p.selects < k
      → Serves thr p (wait_loop cbor disassemble strerror k thr p)
  unfolding wait_loop
  wait_loop-Serves zero thr p h = elim h [ ]
  wait_loop-Serves (suc k) thr p h =
      after_block-Serves k thr p (wait_loop-Serves k) (omega arith) _ refl

  -- On every input, `wait_and_execute_command` ends as the loop of the source does, after finitely many
  -- requests: when `select` is not answered or a request does not end, in a wait without end; when a request
  -- crashes, in a crash; when a wait fails, with the message and an error; when the result of a request is an error,
  -- with that error; when the request is a continue, with its result; and after any other request, as the same
  -- loop does on the thread and in the state it left.
  pub wait_and_execute_command-Serves :
      (thr : Ptr) (p : Process)
      → Serves thr p (wait_and_execute_command cbor disassemble strerror thr p)
  unfolding wait_and_execute_command
  wait_and_execute_command-Serves thr p =
      wait_loop-Serves (suc (length p.selects)) thr p (omega arith)
