-- ===== src/Rpc/Untold.antt =====
-- FailServer of the central controller (core/net/topologyServer_central.go) for a server that is in
-- no virtual cluster.
use horus_controller.Prelude.{ℕ, ◌≡◌, refl, none, some, [], arith, returned, number_key}
use horus_controller.GoMap.{load, delete, load-delete}
use horus_controller.Info.{ServerInfo, ok_status}
use horus_controller.Prelude.Words.{u16}
use horus_controller.Rpc.State.{RpcServer}
use horus_controller.Rpc.Central.{fail_server}
use horus_controller.Topology.Valid.{IsValid}
use horus_controller.Topology.RemoveServer.Effect.{remove_server-removed, removed}
use horus_controller.VcManager.{list_at}
use horus_controller.VcManager.Answers.{detach_server_unlisted}

-- FailServer of a server that is in no cluster answers OK and takes the server out of the topology, but
-- sends nothing on any channel: its port is not disabled, and its spine is not told.
pub fail_server_untold :
    (info : ServerInfo) (a : ℕ) (s : RpcServer)
    → IsValid s.topology
    → load (u16 info.id) s.topology.servers ≡ some a
    → list_at (u16 info.id) s.vcm.server_vcs ≡ []
    → (s' : RpcServer) × (fail_server info s ≡ returned (s', ok_status))
      × (s'.out ≡ s.out)
      × (load (u16 info.id) s'.topology.servers ≡ none)
      × (s'.topology ≡ removed (u16 info.id) a s.topology)
unfolding fail_server
fail_server_untold info a s v h unlisted =
    let sid = u16 info.id in
    let ran = remove_server-removed sid a s.topology v h in
    let d = detach_server_unlisted sid s.topology s.vcm unlisted in
    (
      record s {
        topology = removed sid a s.topology;
        vcm = (let m = s.vcm in record m { server_vcs = delete sid m.server_vcs });
      },
      ground (arith, ran, d),
      refl,
      (unfold removed in ground (arith, load-delete sid sid s.topology.servers)),
      refl,
    )
