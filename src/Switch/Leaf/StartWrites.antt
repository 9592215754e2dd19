-- ===== src/Switch/Leaf/StartWrites.antt =====
-- The writes of LeafCPInitAllVer (ctrl_mgr/cp.go), and what they leave in the forwarding table.
use horus_controller.Switch.Writes.{entry_after, entry_after-append}
use horus_controller.Switch.Leaf.Forward.{
  dst_key, forward_table, server_writes, worker_writes, rounds,
}
use horus_controller.Switch.Leaf.Idle.{idle_count, idle_list}
use horus_controller.Switch.Leaf.{
  set_num_valid, set_unit, leaf_forward, mirror, spine_dst_writes, worker_index,
}
use horus_controller.Switch.Workers.{qlen_unit}
use horus_controller.Switch.{KeyField, put, SwitchEntry, Write}
use horus_controller.Node.{Node, Nodes}
use horus_controller.Prelude.{
  ltb, if◌then◌else◌, length, ℕ, zero, suc, ◌+◌, ◌≡◌, refl, sym, ap, ◌∙◌, arith, String, true,
  false, ◌&&◌, Option, List, [], ◌∷◌, ◌++◌, nat_beq, elem,
}

-- The writes for `n` workers of a server, from `wid` on.
abbrev pub worker_inits : ℕ → ℕ → ℕ → ℕ → ℕ → List Write
worker_inits leaf_id port mac zero wid = []
worker_inits leaf_id port mac (suc n) wid =
    put idle_list (worker_index leaf_id wid) (worker_index leaf_id wid)
    ∷ leaf_forward (worker_index leaf_id wid) leaf_id port mac
    ∷ worker_inits leaf_id port mac n (suc wid)

abbrev pub server_inits : Nodes → ℕ → (ℕ → ℕ) → (ℕ → ℕ) → List ℕ → List Write
server_inits nodes leaf_id port mac [] = []
server_inits nodes leaf_id port mac (a ∷ rest) =
    worker_inits leaf_id (port a) (mac a) (rounds (nodes a)) (nodes a).first_worker_id
    ++ server_inits nodes leaf_id port mac rest

-- The writes for the spines and clients.
abbrev pub upstream_writes : ℕ → ℕ → List ℕ → List Write
upstream_writes index port [] = []
upstream_writes index port (uid ∷ uids) =
    mirror (uid + index) port ∷ leaf_forward uid index port 100 ∷ upstream_writes index port uids

-- The idle list does not change what the tables get.
pub worker_inits-entries :
    (leaf_id port mac n wid : ℕ) (u : String) (ls : List KeyField) (old : Option SwitchEntry)
    → entry_after (worker_inits leaf_id port mac n wid) u ls old
      ≡ entry_after (worker_writes leaf_id port mac n wid) u ls old
worker_inits-entries leaf_id port mac zero wid u ls old = refl
worker_inits-entries leaf_id port mac (suc n) wid u ls old =
    worker_inits-entries leaf_id port mac n (suc wid) u ls _

pub server_inits-entries :
    (nodes : Nodes) (leaf_id : ℕ) (port mac : ℕ → ℕ) (xs : List ℕ) (u : String) (ls : List KeyField)
    (old : Option SwitchEntry)
    → entry_after (server_inits nodes leaf_id port mac xs) u ls old
      ≡ entry_after (server_writes nodes leaf_id port mac xs) u ls old
server_inits-entries nodes leaf_id port mac [] u ls old = refl
server_inits-entries nodes leaf_id port mac (x ∷ xs) u ls old =
    let ws = worker_inits leaf_id (port x) (mac x) (rounds (nodes x)) (nodes x).first_worker_id in
    let vs = worker_writes leaf_id (port x) (mac x) (rounds (nodes x)) (nodes x).first_worker_id in
    entry_after-append ws (server_inits nodes leaf_id port mac xs) u ls old
    ∙ server_inits-entries nodes leaf_id port mac xs u ls (entry_after ws u ls old)
    ∙ ap (entry_after (server_writes nodes leaf_id port mac xs) u ls) (
        worker_inits-entries leaf_id (port x) (mac x) (rounds (nodes x)) (nodes x).first_worker_id u
          ls old)
    ∙ sym (entry_after-append vs (server_writes nodes leaf_id port mac xs) u ls old)

-- A spine or client that has not the address of the worker leaves its entry.
pub upstream-entries :
    (leaf_id index port wid : ℕ) (uids : List ℕ) (old : Option SwitchEntry)
    → ((uid : ℕ)
        → elem uid uids ≡ true
        → (nat_beq uid (worker_index leaf_id wid) && nat_beq index leaf_id) ≡ false)
    → entry_after (upstream_writes index port uids) forward_table (dst_key leaf_id wid) old ≡ old
upstream-entries leaf_id index port wid [] old free = refl
upstream-entries leaf_id index port wid (uid ∷ uids) old free =
    upstream-entries leaf_id index port wid uids _ (λ x m. free x (ground arith))
    ∙ ground (arith, free uid (ground arith))

pub spine_dst-entries :
    (n i pool spine : ℕ) (vs : List Write) (ls : List KeyField) (old : Option SwitchEntry)
    → entry_after (spine_dst_writes n i pool spine ++ vs) forward_table ls old
      ≡ entry_after vs forward_table ls old
spine_dst-entries zero i pool spine vs ls old = refl
spine_dst-entries (suc n) i pool spine vs ls old = spine_dst-entries n (suc i) pool spine vs ls old

-- `int(math.Max(float64(len(spines)), 2))`
abbrev pub spine_count : List ℕ → ℕ
spine_count spines = if ltb (length spines) 2 then 2 else length spines

abbrev pub count_writes : Node → ℕ → ℕ → List Write
count_writes n count spines = put idle_count n.id count ∷ set_num_valid n.id count spines ∷ []

abbrev pub link_writes : Node → ℕ → ℕ → List Write
link_writes n count parent_id =
    set_unit n.id (qlen_unit count)
    ∷ put "pipe_leaf.LeafIngress.linked_iq_sched" n.id parent_id
    ∷ put "pipe_leaf.LeafIngress.linked_sq_sched" n.id parent_id
    ∷ []
