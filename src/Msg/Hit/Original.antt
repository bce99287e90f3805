-- ===== src/Msg/Hit/Original.antt =====
-- The original of a breakpoint that was continued from: how it is taken out of memory and put back.
use udi.Breakpoint.{breakpoint_insn, store, set_in_memory}
use udi.Breakpoint.Chain.{load_lem}
use udi.Breakpoint.Install.{
  IsCalm, with_node-IsCalm, poked, with_node, copied, install_breakpoint-lem,
}
use udi.Cmd.{ok}
use udi.Machine.{null, Breakpoint, Machine}
use udi.Msg.Debuggee.{Debuggee}
use udi.Msg.Hit.{reinstall}
use udi.Prelude.{ℕ, ◌≡◌, ◌≢◌, refl, true, false, some, ==_refl}

module _ (m : Machine) (bp v : ℕ) (b : Breakpoint) (c : IsCalm m) (ne : bp ≢ null)
    (node : m.nodes bp ≡ some b) (present : b.in_memory ≡ true)
    (at : m.mem b.address ≡ some v) where
  abbrev pub unmarked : Machine
  unmarked = with_node m bp (record b { in_memory = false })

  pub unmarked-IsCalm : IsCalm unmarked
  unmarked-IsCalm = with_node-IsCalm m bp (record b { in_memory = false }) c

  -- After the reinstallation.
  abbrev pub reinstalled : Machine
  reinstalled =
      with_node
        (poked
          (copied unmarked bp v (record b { in_memory = false }) unmarked-IsCalm ne
            (rw (==_refl bp)) at)
          b.address breakpoint_insn)
        bp (record b { saved_byte = v; in_memory = true })

  pub reinstall-lem :
      (d : Debuggee) → d.machine ≡ m → reinstall bp d ≡ ok true (record d { machine = reinstalled })
  unfolding reinstall set_in_memory store
  reinstall-lem d e =
      rw (e, load_lem m bp b ne node, present, load_lem m bp b ne node)
        (rw
          (install_breakpoint-lem unmarked bp v (record b { in_memory = false }) unmarked-IsCalm ne
            (rw (==_refl bp)) at refl)
          refl)
