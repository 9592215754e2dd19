-- ===== src/Controller/Clusters.antt =====
-- The clusters that a controller fetches at its start (ctrl_mgr/controller.go).
use horus_controller.VcManager.Consistent.{IsConsistent, add_vc-IsConsistent}
use horus_controller.Topology.State.{Topology}
use horus_controller.Info.{VcInfo}
use horus_controller.Prelude.{inl, inr, List, [], ◌∷◌, Result-cases}
use horus_controller.VcManager.{VcManager}
use horus_controller.Vc.{new_vc}
use horus_controller.Controller.{add_clusters}

pub add_clusters-IsConsistent :
    (infos : List VcInfo) (t : Topology) (m : VcManager)
    → IsConsistent t m
    → IsConsistent t (add_clusters infos t m)
unfolding add_clusters
add_clusters-IsConsistent [] t m c = c
add_clusters-IsConsistent (info ∷ infos) t m c = elim (Result-cases (new_vc info t)) [
  | inl (vc, made) ↦
      add_clusters-IsConsistent infos t _ (rw made (add_vc-IsConsistent info vc t m c made))
  | inr (e, refused) ↦ add_clusters-IsConsistent infos t _ (rw refused c)
]
