-- ===== src/Rpc/Manager.antt =====
-- core/net/topologyServer_manager.go: the service of the switch manager, which hands leaves to its loop.
use horus_controller.Prelude.{none, []}
use horus_controller.Info.{LeafInfo, ServerInfo, Status, ok_status, not_supported}
use horus_controller.Rpc.State.{Channels, ◌◂◌}

unfoldable pub add_leaf : LeafInfo → Channels → Channels × Status
add_leaf info c =
    (record c { new_leaves = c.new_leaves ◂ record { leaf = info; dst = none } }, ok_status)

unfoldable pub fail_leaf : LeafInfo → Channels → Channels × Status
fail_leaf info c =
    (record c { failed_leaves = c.failed_leaves ◂ record { leaf = info; dsts = [] } }, ok_status)

unfoldable pub add_server : ServerInfo → Channels → Channels × Status
add_server info c = (c, not_supported)

unfoldable pub fail_server : ServerInfo → Channels → Channels × Status
fail_server info c = (c, not_supported)
