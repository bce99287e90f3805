-- ===== src/Msg/Process/Breakpoints.antt =====
-- The breakpoint requests against what the breakpoint table holds.
use udi.Breakpoint.{breakpoint_hash}
use udi.Breakpoint.Chain.{Cells, Holds, has_address, find_in}
use udi.Breakpoint.Find.{find_breakpoint-Holds}
use udi.Breakpoint.Create.{create_breakpoint-Becomes, created, insert_in-absent}
use udi.Cmd.{ok, fault}
use udi.Format.{u64}
use udi.Machine.{Ptr, null, Machine, set_errmsg, update}
use udi.Msg.{Cbor, Item, uint16_item}
use udi.Msg.Write.{write_response_no_data, udi_resp_valid, udi_req_create_breakpoint}
use udi.Msg.Write.Responses.{sent, write_response-sent}
use udi.Msg.Debuggee.{success, failure, Debuggee, set_message}
use udi.Breakpoint.Install.{null_install, null_remove, null_delete}
use udi.Msg.Process.{
  read_breakpoint_addr, create_at, respond_no_data, with_breakpoint, operate,
  breakpoint_create_handler, breakpoint_install_handler, breakpoint_remove_handler,
  breakpoint_delete_handler,
}
use udi.Prelude.{ℕ, ◌≡◌, ◌≢◌, refl, false, none, List, [], ◌∷◌, ◌++◌, arith, ==_ne}

-- For an address that the table holds, the create request is refused: nothing but the
-- error message changes.
pub breakpoint_create_handler-duplicate :
    (cbor : Cbor) (addr : ℕ) (view : ℕ → Cells) (d d' : Debuggee)
    → read_breakpoint_addr cbor d ≡ ok (success, addr) d'
    → Holds d'.machine view
    → find_in addr (view (breakpoint_hash addr)) ≢ null
    → breakpoint_create_handler cbor d
      ≡ ok failure (record d' {
        machine = record d'.machine {
          errmsg = record { format = "breakpoint already exists at %a"; args = u64 addr ∷ [] };
        };
      })
unfolding breakpoint_create_handler create_at set_message set_errmsg
breakpoint_create_handler-duplicate cbor addr view d d' e v ne =
    rw (e, find_breakpoint-Holds d'.machine view addr v, ==_ne _ 0 ne) refl

find_in-absent : (a : ℕ) (xs : Cells) → has_address a xs ≡ false → find_in a xs ≡ null
unfolding find_in
find_in-absent a [] h = refl
find_in-absent a ((p, b) ∷ xs) h = ground (arith, find_in-absent a xs)

created-absent : (a new : ℕ) (xs : Cells) → has_address a xs ≡ false → created a new xs ≡ new
unfolding created
created-absent a new xs h = rw h

-- For an address that the table does not hold, with an unused address from the allocator and a
-- response pipe that takes the response, the create request is answered by two items, the type of a valid
-- response and the request type, and the table then holds the new breakpoint last in the bucket of
-- its address, and all others as before.
pub breakpoint_create_handler-new :
    (cbor : Cbor) (addr new : ℕ) (later : List Ptr) (view : ℕ → Cells) (d d' : Debuggee)
    → ((item : Item) → cbor.cbor_serialize item ≢ [])
    → read_breakpoint_addr cbor d ≡ ok (success, addr) d'
    → Holds d'.machine view
    → has_address addr (view (breakpoint_hash addr)) ≡ false
    → d'.machine.mallocs ≡ new ∷ later
    → new ≢ null
    → d'.machine.nodes new ≡ none
    → d'.write_errors ≡ []
    → (m' : Machine) × (breakpoint_create_handler cbor d
        ≡ ok success (
            sent
              (record d' { machine = m' })
              (cbor.cbor_serialize (uint16_item udi_resp_valid)
                ++ (cbor.cbor_serialize (uint16_item udi_req_create_breakpoint) ++ []))))
      × Holds m'
          (update view (breakpoint_hash addr) (view (breakpoint_hash addr) ++ ((new, addr) ∷ [])))
unfolding breakpoint_create_handler create_at respond_no_data write_response_no_data
breakpoint_create_handler-new cbor addr new later view d d' ser e v absent next ne unused unbroken =
    let (m', run, after) =
      create_breakpoint-Becomes d'.machine view addr new later v next ne unused in
    (
      m',
      rw
          (
            e,
            find_breakpoint-Holds d'.machine view addr v,
            find_in-absent addr _ absent,
            run,
            created-absent addr new _ absent,
            ==_ne new 0 ne,
          )
          (write_response-sent cbor ser (record d' { machine = m' }) udi_resp_valid
            udi_req_create_breakpoint none unbroken),
      rw (insert_in-absent addr new _ absent) at after.holds,
    )

-- For an address that the table does not hold, the install, remove and delete requests dereference
-- the NULL that `find_breakpoint` returns.
pub missing_breakpoint-fault :
    (cbor : Cbor) (addr : ℕ) (view : ℕ → Cells) (d d' : Debuggee)
    → read_breakpoint_addr cbor d ≡ ok (success, addr) d'
    → Holds d'.machine view
    → has_address addr (view (breakpoint_hash addr)) ≡ false
    → (breakpoint_install_handler cbor d ≡ fault)
      × (breakpoint_remove_handler cbor d ≡ fault)
      × (breakpoint_delete_handler cbor d ≡ fault)
unfolding breakpoint_install_handler breakpoint_remove_handler breakpoint_delete_handler
    with_breakpoint operate
missing_breakpoint-fault cbor addr view d d' e v absent = (
  rw (e, find_breakpoint-Holds d'.machine view addr v, find_in-absent addr _ absent, null_install)
      refl,
  rw (e, find_breakpoint-Holds d'.machine view addr v, find_in-absent addr _ absent, null_remove)
      refl,
  rw (e, find_breakpoint-Holds d'.machine view addr v, find_in-absent addr _ absent, null_delete)
      refl,
)
