-- ===== src/Switch/SpineCp/Entries.antt =====
-- The entries between the leaves of a spine and their indices (ctrl_mgr/cp.go, the first version of the
-- data plane).
use horus_controller.Topology.Indices.{IsIndexed}
use horus_controller.Prelude.Words.{u16}
use horus_controller.Switch.Writes.{entry_after}
use horus_controller.Switch.Spine.{exact, vc_key, index_leaves}
use horus_controller.Switch.{KeyField, SwitchEntry, table_entry, bytes_data}
use horus_controller.Node.{Nodes}
use horus_controller.Prelude.{
  suc, ◌+◌, ◌∙◌, arith, index_of, ℕ, ◌≡◌, refl, String, true, Option, some, List, [], ◌∷◌,
  if◌then◌else◌, elem, number_key, text_key,
}

abbrev pub switch_index : String
switch_index = "pipe_spine.SpineIngress.get_switch_index"

abbrev pub rand_leaf_1 : String
rand_leaf_1 = "pipe_spine.SpineIngress.get_rand_leaf_id_1"

abbrev pub rand_leaf_2 : String
rand_leaf_2 = "pipe_spine.SpineIngress.get_rand_leaf_id_2"

abbrev pub num_valid_leafs : String
num_valid_leafs = "pipe_spine.SpineIngress.get_cluster_num_valid_leafs"

abbrev pub src_key : ℕ → List KeyField
src_key id = vc_key ∷ exact "hdr.horus.src_id" id ∷ []

abbrev pub rand_key_1 : ℕ → List KeyField
rand_key_1 i = exact "horus_md.random_ds_index_1" i ∷ vc_key ∷ []

abbrev pub rand_key_2 : ℕ → List KeyField
rand_key_2 i = exact "horus_md.random_ds_index_2" i ∷ vc_key ∷ []

-- The entry that gives a leaf its index, and those that give an index its leaf.
abbrev pub index_entry : ℕ → ℕ → SwitchEntry
index_entry id i =
    table_entry switch_index (src_key id) "SpineIngress.act_get_switch_index"
      (bytes_data "switch_index" i ∷ [])

abbrev pub leaf_entry_1 : ℕ → ℕ → SwitchEntry
leaf_entry_1 i id =
    table_entry rand_leaf_1 (rand_key_1 i) "SpineIngress.act_get_rand_leaf_id_1"
      (bytes_data "leaf_id" id ∷ [])

abbrev pub leaf_entry_2 : ℕ → ℕ → SwitchEntry
leaf_entry_2 i id =
    table_entry rand_leaf_2 (rand_key_2 i) "SpineIngress.act_get_rand_leaf_id_2"
      (bytes_data "leaf_id" id ∷ [])

pub index_after :
    (nodes : Nodes) (a : ℕ) (xs : List ℕ) (old : Option SwitchEntry)
    → ((b : ℕ) → elem b xs ≡ true → (nodes b).id ≡ (nodes a).id → b ≡ a)
    → entry_after (index_leaves nodes xs) switch_index (src_key (nodes a).id) old
      ≡ (if elem a xs then some (index_entry (nodes a).id (nodes a).index) else old)
index_after nodes a [] old inj = refl
index_after nodes a (x ∷ xs) old inj =
    index_after nodes a xs _ (λ b m. inj b (ground arith)) ∙ ground (arith, inj x)

pub leaf_after_1 :
    (nodes : Nodes) (a : ℕ) (xs : List ℕ) (old : Option SwitchEntry)
    → ((b : ℕ) → elem b xs ≡ true → (nodes b).index ≡ (nodes a).index → b ≡ a)
    → entry_after (index_leaves nodes xs) rand_leaf_1 (rand_key_1 (nodes a).index) old
      ≡ (if elem a xs then some (leaf_entry_1 (nodes a).index (nodes a).id) else old)
leaf_after_1 nodes a [] old inj = refl
leaf_after_1 nodes a (x ∷ xs) old inj =
    leaf_after_1 nodes a xs _ (λ b m. inj b (ground arith)) ∙ ground (arith, inj x)

pub leaf_after_2 :
    (nodes : Nodes) (a : ℕ) (xs : List ℕ) (old : Option SwitchEntry)
    → ((b : ℕ) → elem b xs ≡ true → (nodes b).index ≡ (nodes a).index → b ≡ a)
    → entry_after (index_leaves nodes xs) rand_leaf_2 (rand_key_2 (nodes a).index) old
      ≡ (if elem a xs then some (leaf_entry_2 (nodes a).index (nodes a).id) else old)
leaf_after_2 nodes a [] old inj = refl
leaf_after_2 nodes a (x ∷ xs) old inj =
    leaf_after_2 nodes a xs _ (λ b m. inj b (ground arith)) ∙ ground (arith, inj x)

-- The index of a leaf is its position.
pub IsIndexed-index_of :
    (nodes : Nodes) (i a : ℕ) (xs : List ℕ)
    → IsIndexed nodes i xs
    → elem a xs ≡ true
    → (nodes a).index ≡ u16 (i + index_of a xs)
IsIndexed-index_of nodes i a [] p m = cc
IsIndexed-index_of nodes i a (x ∷ xs) p m =
    ground (arith, p.0, IsIndexed-index_of nodes (suc i) a xs p.1)

pub index_of-injective :
    (a b : ℕ) (xs : List ℕ)
    → elem a xs ≡ true
    → elem b xs ≡ true
    → index_of a xs ≡ index_of b xs
    → a ≡ b
index_of-injective a b [] m n e = cc
index_of-injective a b (x ∷ xs) m n e = ground (arith, index_of-injective a b xs)

abbrev pub leaf_port_table : String
leaf_port_table = "pipe_spine.SpineIngress.forward_horus_switch_dst"

abbrev pub leaf_port_entry : ℕ → ℕ → SwitchEntry
leaf_port_entry id port =
    table_entry leaf_port_table (exact "hdr.horus.dst_id" id ∷ []) "SpineIngress.act_forward_horus"
      (bytes_data "port" port ∷ [])

-- The ports of the leaves are in another table.
pub leaf_port_kept :
    (nodes : Nodes) (xs : List ℕ) (ls : List KeyField) (old : Option SwitchEntry)
    → entry_after (index_leaves nodes xs) leaf_port_table ls old ≡ old
leaf_port_kept nodes [] ls old = refl
leaf_port_kept nodes (x ∷ xs) ls old = leaf_port_kept nodes xs ls old
