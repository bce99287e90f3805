-- ===== src/Signals/Hooks.antt =====
-- The hooks around an access to debuggee memory (libudirt/src/udirt-posix.c), which unblock the signals
-- of a fault while it lasts. The accesses use their results alone.
use udi.Cmd.{Cmd, ok, pure, ◌>>=◌}
use udi.Signals.{SignalSet, Signals, first, others, setsigmask}
use udi.Prelude.{
  ℕ, ◌≡◌, refl, arith, ◌&&◌, ◌||◌, Bool, true, false, not, Option, none, some, [], ◌==◌,
  if◌then◌else◌, Bool-cases, inl, inr,
}

-- `setsigmask(SIG_BLOCK, NULL, ...)`: the `errno`, and the signals that are blocked.
get_sigmask : Cmd Signals (ℕ × SignalSet)
get_sigmask s = ok (first s.sigmasks, s.blocked) (record s { sigmasks = others s.sigmasks })

-- The set without SIGSEGV and SIGBUS.
abbrev without_faults : SignalSet → SignalSet
without_faults set n = if n == 7 then false else if n == 11 then false else set n

-- The copy of the set that is returned, NULL for `none`; `allocated` is whether there is memory for it.
pub pre_mem_access_hook : Bool → Cmd Signals (Option SignalSet)
pre_mem_access_hook allocated = if not allocated then pure none else do
  (failed, original_set) ← get_sigmask
  if failed == 0
      then (do
        (failed', old_set) ← setsigmask (without_faults original_set)
        pure (if failed' == 0 then some old_set else none))
      else pure none

-- True is the result 0.
pub post_mem_access_hook : SignalSet → Cmd Signals Bool
post_mem_access_hook original_set = do (failed, _) ← setsigmask original_set; pure (failed == 0)

-- What the hooks leave, by the result of the first: without one, the blocked signals are as they were; with one, exactly
-- SIGSEGV and SIGBUS are unblocked.
pub Unblocked : Signals → Option SignalSet → Signals → Type 0
Unblocked s none s' = s'.blocked ≡ s.blocked
Unblocked s (some set) s' =
    (set ≡ s.blocked) × ((n : ℕ) → s'.blocked n ≡ (s.blocked n && not ((n == 7) || (n == 11))))

-- Whatever the memory and the operating system grant, the hook before an access either returns nothing, with the blocked signals as
-- they were, or returns the set of the signals that were blocked, with exactly SIGSEGV and SIGBUS taken
-- out of the blocked ones; and the hook after it, given the set from before and a mask that can be
-- set, succeeds, with the signals blocked that were blocked before.
pub post_mem_access_hook-pre_mem_access_hook :
    (allocated : Bool) (s : Signals)
    → (set : Option SignalSet) × (s' : Signals) × (pre_mem_access_hook allocated s ≡ ok set s')
      × Unblocked s set s'
      × (post_mem_access_hook s.blocked (record s' { sigmasks = [] })
          ≡ ok true (record s' { sigmasks = []; blocked = s.blocked }))
unfolding pre_mem_access_hook get_sigmask setsigmask post_mem_access_hook Unblocked
post_mem_access_hook-pre_mem_access_hook false s = (none, s, refl, refl, refl)
post_mem_access_hook-pre_mem_access_hook true s = elim (Bool-cases (first s.sigmasks == 0)) [
  | inr bad ↦ (none, record s { sigmasks = others s.sigmasks }, rw bad refl, refl, refl)
  | inl good ↦ elim (Bool-cases (first (others s.sigmasks) == 0)) [
    | inr bad ↦
        (none, record s { sigmasks = others (others s.sigmasks) }, rw (good, bad) refl, refl, refl)
    | inl fine ↦ (
      some s.blocked,
      record s { sigmasks = others (others s.sigmasks); blocked = without_faults s.blocked },
      rw (good, fine) refl,
      (refl, λ n. ground arith),
      refl,
    )
  ]
]
