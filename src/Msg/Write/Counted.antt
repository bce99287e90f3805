-- ===== src/Msg/Write/Counted.antt =====
-- What a request that was read with success says.
use udi.Machine.{Message}
use udi.Msg.{Cbor}
use udi.Msg.Debuggee.{success}
use udi.Msg.Read.{Pipe, Ended, read_cbor_items}
use udi.Msg.Read.Stream.{read_cbor_items-Good}
use udi.Msg.Request.{MsgConfig, ReqDataState, fresh, request_data_callbacks}
use udi.Msg.Request.Complete.{IsSound, callbacks-IsSound}
use udi.Msg.Write.{read_status}
use udi.Prelude.{◌≤◌, ◌≡◌, true, some, arith, length}

-- If reading the data of a request ends with success, a callback completed it, and there were at least
-- as many values as the table has items.
pub read_request_data-counted :
    {D : Type 0} (cbor : Cbor) (config : MsgConfig D) (pipe : Pipe) (blank : D) (errmsg : Message)
    (e : Ended (ReqDataState D))
    → read_cbor_items cbor (request_data_callbacks cbor config) pipe (fresh blank) errmsg ≡ some e
    → read_status e ≡ success
    → (e.state.done ≡ true) × (length config ≤ e.state.ctx.item_count)
unfolding read_status
read_request_data-counted cbor config pipe blank errmsg e run s =
    let good = rw run at (
      read_cbor_items-Good (IsSound config) cbor (request_data_callbacks cbor config)
        (callbacks-IsSound cbor config) pipe (fresh blank) errmsg (ground arith)) in
    let (finished, p) = good (ground arith) in (finished, p finished (ground arith))
