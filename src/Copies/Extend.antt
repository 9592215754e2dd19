-- ===== src/Copies/Extend.antt =====
-- AddServerToLeaf (core/model/topology.go): what it does to the view of the leaf depends on the view.
use horus_controller.Prelude.{number_key}
use horus_controller.Topology.Numbering.Add.{old_kid, kids_eq}
use horus_controller.Topology.Valid.{IsValid}
use horus_controller.Topology.State.{Topology}
use horus_controller.Topology.AddServer.{attach_server}
use horus_controller.Copies.{LeafView, view_servers, leaf_view}
use horus_controller.Info.{ServerInfo}
use horus_controller.Node.{Nodes}
use horus_controller.Asic.{PortRef}
use horus_controller.GoMap.{load}
use horus_controller.Prelude.Words.{u16, add16, sub16}
use horus_controller.Prelude.{
  ℕ, ◌≡◌, refl, true, some, List, [], ◌∷◌, ◌++◌, arith, ltb, if◌then◌else◌, elem,
}

pub view_servers-append :
    (nodes : Nodes) (b : ℕ) (xs : List ℕ)
    → view_servers nodes (xs ++ b ∷ []) ≡ view_servers nodes xs ++ view_servers nodes (b ∷ [])
view_servers-append nodes b [] = refl
view_servers-append nodes b (x ∷ xs) = rw (view_servers-append nodes b xs)

pub view_servers-congr :
    (m n : Nodes) (xs : List ℕ)
    → ((c : ℕ) → elem c xs ≡ true → m c ≡ n c)
    → view_servers m xs ≡ view_servers n xs
view_servers-congr m n [] h = refl
view_servers-congr m n (x ∷ xs) h =
    ground (arith, h x, view_servers-congr m n xs (λ c k. h c (ground arith)))

-- The first worker ID that a leaf with a last one hands out.
abbrev pub next_in : LeafView → ℕ
next_in w = if ltb 0 w.last_worker_id then add16 w.last_worker_id 1 else 0

-- The view with a new server.
abbrev pub extended : ServerInfo → LeafView → LeafView
extended info w =
    let last = sub16 (add16 (next_in w) (u16 info.workers_count)) 1 in
    record {
      servers =
          w.servers
          ++ record { id = u16 info.id; first_worker_id = next_in w; last_worker_id = last } ∷ [];
      last_worker_id = last;
    }

pub leaf_view-attach_server :
    (info : ServerInfo) (port : PortRef) (k l : ℕ) (t : Topology)
    → IsValid t
    → load k t.leaves ≡ some l
    → leaf_view (attach_server info port l t).nodes l ≡ extended info (leaf_view t.nodes l)
unfolding attach_server
leaf_view-attach_server info port k l t v h =
    let old = v.leaves_ok k l h in
    let same =
      view_servers-congr t.nodes (attach_server info port l t).nodes (t.nodes l).children
        (old_kid info port k l t v h) in
    ground (
      arith,
      same,
      old,
      kids_eq info port k l t v h,
      view_servers-append (attach_server info port l t).nodes t.next (t.nodes l).children,
    )
