-- ===== src/Endpoint.antt =====
-- core/net/rpc_endpoint_*.go: the clients by which a controller hands the messages of its RPC server
-- on to the servers of its neighbours.
pub mod Central
pub mod Spine
use horus_controller.Prelude.{String, Bool, Option, none, some, List, if◌then◌else◌}
use horus_controller.Info.{LeafInfo, ServerInfo, VcInfo}
use horus_controller.Rpc.State.{◌◂◌}

-- A call of a `HorusServiceClient`.
pub data Call : Type 0 where
  fail_leaf : LeafInfo → Call
  fail_server : ServerInfo → Call
  add_leaf : LeafInfo → Call
  add_server : ServerInfo → Call
  add_vc : VcInfo → Call
  remove_vc : VcInfo → Call

-- A call that was made, with the address that the pool of its connection dials.
pub record Sent : Type 0 where
  pub address : String
  pub call : Call

pub data SendError : Type 0 where
  no_node no_pool no_connection rpc_failed : SendError

-- What grpc and its connection pools decide, which may depend on the calls made so far: whether a pool
-- has no connection to hand out (`pool.Get`), and whether a call comes back with an error.
pub record Network : Type 0 where
  pub unreachable : List Sent → String → Bool
  pub refused : List Sent → Sent → Bool

-- The end of every send function: a connection of the pool, the call, and its error. A pool is the
-- address that it dials.
unfoldable pub call_on : Network → String → Call → List Sent → List Sent × Option SendError
call_on net address call sent =
    let made : Sent = record { address = address; call = call } in
    if net.unreachable sent address
    then (sent, some no_connection)
    else (sent ◂ made, if net.refused sent made then some rpc_failed else none)
