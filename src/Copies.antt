-- ===== src/Copies.antt =====
-- The copies of the tree: the central controller, the spines and the leaves have one each, and run the
-- same calls of core/model/topology.go on it. What they have to agree on for a leaf is its view.
pub mod Extend
pub mod AddServer
pub mod Everywhere
pub mod Rebuilt
pub mod Fetched
pub mod Sizes
use horus_controller.Prelude.{ℕ, List, [], ◌∷◌}
use horus_controller.Node.{Nodes}

-- A server as the switches see it: its ID and its worker IDs.
pub record ServerView : Type 0 where
  pub id : ℕ
  pub first_worker_id : ℕ
  pub last_worker_id : ℕ

pub record LeafView : Type 0 where
  pub servers : List ServerView
  pub last_worker_id : ℕ

abbrev pub view_servers : Nodes → List ℕ → List ServerView
view_servers nodes [] = []
view_servers nodes (a ∷ rest) =
    record {
      id = (nodes a).id;
      first_worker_id = (nodes a).first_worker_id;
      last_worker_id = (nodes a).last_worker_id;
    }
    ∷ view_servers nodes rest

abbrev pub leaf_view : Nodes → ℕ → LeafView
leaf_view nodes l = record {
  servers = view_servers nodes (nodes l).children;
  last_worker_id = (nodes l).last_worker_id;
}
