-- ===== src/Switch/Leaf/Start.antt =====
-- The forwarding table of a leaf when its switch starts (ctrl_mgr/cp.go: LeafCPInitAllVer).
use horus_controller.Switch.Leaf.StartWrites.{
  worker_inits, server_inits, upstream_writes, server_inits-entries, upstream-entries,
  spine_dst-entries, spine_count, count_writes, link_writes,
}
use horus_controller.Topology.Numbering.Owners.{owns}
use horus_controller.Switch.Writes.{Fits, run_writes_lem, run_writes-append}
use horus_controller.Switch.Leaf.Forward.{
  server_after, IsServed, dst_key, forward_table, IsKnown, rounds,
}
use horus_controller.Switch.Leaf.Idle.{idle_count, idle_list}
use horus_controller.Switch.Leaf.{
  node_ids, leaf_init_all, forward_worker, init_upstream, init_worker, init_workers, leaf_forward,
  mirror, spine_dst_writes, worker_index,
}
use horus_controller.Switch.Workers.{
  count_workers, dev_port, each_worker, worker_fuel, workers_from,
}
use horus_controller.Switch.Workers.Loop.{each_worker_lem}
use horus_controller.Switch.{KeyField, put, run_write, run_writes, SwitchClient, SwitchEntry, Write}
use horus_controller.Topology.State.{Topology}
use horus_controller.Node.{Node, Nodes}
use horus_controller.Prelude.{
  ◌≤◌, ◌<◌, some, bind_congr, ℕ, zero, suc, ◌+◌, ◌≡◌, refl, sym, ap, ◌∙◌, inl, inr, arith, String,
  true, false, ◌&&◌, Option, List, [], ◌∷◌, ◌++◌, nat_beq, elem, Outcome-cases, returned, ◌>>=◌,
}

module _ (c : SwitchClient) where
  open c use {State, read_table_entry, register_size}

  workers_init :
      (t : Topology) (leaf_id a : ℕ) (port mac : ℕ → ℕ) (n wid : ℕ) (s : State)
      → IsKnown c t port mac a
      → workers_from n wid (init_worker c t leaf_id (t.nodes a)) s
        ≡ run_writes c (worker_inits leaf_id (port a) (mac a) n wid) s
  unfolding workers_from init_worker forward_worker run_writes
  workers_init t leaf_id a port mac zero wid s k = refl
  workers_init t leaf_id a port mac (suc n) wid s k =
      let index = worker_index leaf_id wid in
      elim (Outcome-cases (run_write c (put idle_list index index) s)) [
        | inl (u, ran) ↦
            elim (Outcome-cases (run_write c (leaf_forward index leaf_id (port a) (mac a)) u)) [
              | inl (u', ran') ↦
                  ground (arith, ran, ran', k, workers_init t leaf_id a port mac n (suc wid) u' k)
              | inr (inl e) ↦ ground (arith, ran, e, k)
              | inr (inr e) ↦ ground (arith, ran, e, k)
            ]
        | inr (inl e) ↦ ground (arith, e, k)
        | inr (inr e) ↦ ground (arith, e, k)
      ]

  servers_init :
      (t : Topology) (leaf_id : ℕ) (port mac : ℕ → ℕ) (xs : List ℕ) (s : State)
      → ((a : ℕ) → elem a xs ≡ true → IsKnown c t port mac a)
      → init_workers c t leaf_id xs s ≡ run_writes c (server_inits t.nodes leaf_id port mac xs) s
  unfolding init_workers run_writes
  servers_init t leaf_id port mac [] s known = refl
  servers_init t leaf_id port mac (x ∷ xs) s known =
      let k : IsKnown c t port mac x = known x (ground arith) in
      let n = t.nodes x in
      let ws = worker_inits leaf_id (port x) (mac x) (rounds n) n.first_worker_id in
      let loop : each_worker worker_fuel n.first_worker_id n.last_worker_id
            (init_worker c t leaf_id n) s
          ≡ run_writes c ws s =
        each_worker_lem n.first_worker_id n.last_worker_id (init_worker c t leaf_id n) s k.finite.0
          k.finite.1
        ∙ workers_init t leaf_id x port mac (rounds n) n.first_worker_id s k in
      ap (λ m. m >>= init_workers c t leaf_id xs) loop
      ∙ bind_congr (run_writes c ws s) (init_workers c t leaf_id xs)
          (run_writes c (server_inits t.nodes leaf_id port mac xs))
          (λ u. servers_init t leaf_id port mac xs u (λ a m. known a (ground arith)))
      ∙ sym (run_writes-append c ws (server_inits t.nodes leaf_id port mac xs) s)

  upstream_init :
      (t : Topology) (n : Node) (port : ℕ) (uids : List ℕ) (s : State)
      → dev_port t n.us_port ≡ returned port
      → init_upstream c t n uids s ≡ run_writes c (upstream_writes n.index port uids) s
  unfolding init_upstream run_writes
  upstream_init t n port [] s known = refl
  upstream_init t n port (uid ∷ uids) s known =
      let ws = mirror (uid + n.index) port ∷ leaf_forward uid n.index port 100 ∷ [] in
      rw known (
        bind_congr (run_writes c ws s) (init_upstream c t n uids)
          (run_writes c (upstream_writes n.index port uids))
          (λ u. upstream_init t n port uids u known)
        ∙ sym (run_writes-append c ws (upstream_writes n.index port uids) s))

  worker_inits-Fits :
      (leaf_id port mac n wid : ℕ) (vs : List Write)
      (read : String → List KeyField → Option SwitchEntry)
      → 65536 ≤ register_size idle_list
      → ((r : String → List KeyField → Option SwitchEntry) → Fits c vs r)
      → Fits c (worker_inits leaf_id port mac n wid ++ vs) read
  worker_inits-Fits leaf_id port mac zero wid vs read room f = f read
  worker_inits-Fits leaf_id port mac (suc n) wid vs read room f =
      (omega (arith, room), (tt, worker_inits-Fits leaf_id port mac n (suc wid) vs _ room f))

  server_inits-Fits :
      (nodes : Nodes) (leaf_id : ℕ) (port mac : ℕ → ℕ) (xs : List ℕ)
      (read : String → List KeyField → Option SwitchEntry)
      → 65536 ≤ register_size idle_list
      → Fits c (server_inits nodes leaf_id port mac xs) read
  server_inits-Fits nodes leaf_id port mac [] read room = tt
  server_inits-Fits nodes leaf_id port mac (x ∷ xs) read room =
      worker_inits-Fits leaf_id (port x) (mac x) (rounds (nodes x)) (nodes x).first_worker_id _ read
        room (λ r. server_inits-Fits nodes leaf_id port mac xs r room)

  upstream-Fits :
      (index port : ℕ) (uids : List ℕ) (read : String → List KeyField → Option SwitchEntry)
      → Fits c (upstream_writes index port uids) read
  upstream-Fits index port [] read = tt
  upstream-Fits index port (uid ∷ uids) read = (tt, (tt, upstream-Fits index port uids _))

  spine_dst-Fits :
      (n i pool spine : ℕ) (vs : List Write) (read : String → List KeyField → Option SwitchEntry)
      → ((r : String → List KeyField → Option SwitchEntry) → Fits c vs r)
      → Fits c (spine_dst_writes n i pool spine ++ vs) read
  spine_dst-Fits zero i pool spine vs read f = f read
  spine_dst-Fits (suc n) i pool spine vs read f = (tt, spine_dst-Fits n (suc i) pool spine vs _ f)

  -- The registers have a cell for every worker index, and one for the leaf.
  pub record HasCells (leaf_id : ℕ) : Type 0 where
    pub list : 65536 ≤ register_size idle_list
    pub count : leaf_id < register_size idle_count
    pub iq : leaf_id < register_size "pipe_leaf.LeafIngress.linked_iq_sched"
    pub sq : leaf_id < register_size "pipe_leaf.LeafIngress.linked_sq_sched"

  leaf_init_run :
      (t : Topology) (ups clients : List ℕ) (first : ℕ) (rest : List ℕ) (l parent : ℕ)
      (s s1 s2 s3 s4 : State)
      → let n = t.nodes l in
        let count = count_workers t.nodes n.children 0 in
        n.parent ≡ some parent
        → init_workers c t n.id n.children s ≡ returned s1
        → init_upstream c t n (node_ids t.nodes ups ++ node_ids t.nodes clients) s1 ≡ returned s2
        → run_writes c (count_writes n count (spine_count (first ∷ rest))) s2 ≡ returned s3
        → run_writes c
            (spine_dst_writes (spine_count (first ∷ rest)) 0 n.id first
              ++ link_writes n count (t.nodes parent).id)
            s3
          ≡ returned s4
        → leaf_init_all c t ups clients (first ∷ rest) l s ≡ returned s4
  unfolding leaf_init_all
  leaf_init_run t ups clients first rest l parent s s1 s2 s3 s4 h h1 h2 h3 h4 =
      rw (h, h1, h2, h3) h4

  -- LeafCPInitAllVer of a leaf with a parent, for a configuration with a spine, returns, and every
  -- worker ID of the servers of the leaf leads to the port and the MAC address of the server that
  -- owns it. The servers must have known ports and MAC addresses and no worker ID in common, no
  -- spine or client the address of a worker, and the switch cells for all worker indices and the leaf.
  pub leaf_init-IsServed :
      (t : Topology) (ups clients : List ℕ) (first : ℕ) (rest : List ℕ) (l parent up : ℕ)
      (port mac : ℕ → ℕ) (s : State)
      → (t.nodes l).parent ≡ some parent
      → dev_port t (t.nodes l).us_port ≡ returned up
      → ((a : ℕ) → elem a (t.nodes l).children ≡ true → IsKnown c t port mac a)
      → ((a b wid : ℕ)
          → elem a (t.nodes l).children ≡ true
          → elem b (t.nodes l).children ≡ true
          → owns (t.nodes a) wid ≡ true
          → owns (t.nodes b) wid ≡ true
          → a ≡ b)
      → ((a wid uid : ℕ)
          → elem a (t.nodes l).children ≡ true
          → owns (t.nodes a) wid ≡ true
          → elem uid (node_ids t.nodes ups ++ node_ids t.nodes clients) ≡ true
          → (nat_beq uid (worker_index (t.nodes l).id wid)
              && nat_beq (t.nodes l).index (t.nodes l).id)
            ≡ false)
      → HasCells (t.nodes l).id
      → (s' : State) × (leaf_init_all c t ups clients (first ∷ rest) l s ≡ returned s')
        × IsServed c t.nodes (t.nodes l).id port mac (t.nodes l).children s'
  unfolding leaf_init_all
  leaf_init-IsServed t ups clients first rest l parent up port mac s at_parent at_up known unique
        free room =
      let n = t.nodes l in
      let kids = n.children in
      let uids = node_ids t.nodes ups ++ node_ids t.nodes clients in
      let total = count_workers t.nodes kids 0 in
      let spines = spine_count (first ∷ rest) in
      let third = count_writes n total spines in
      let last = link_writes n total (t.nodes parent).id in
      let (s1, ran1, w1) =
        run_writes_lem c (server_inits t.nodes n.id port mac kids) s
          (server_inits-Fits t.nodes n.id port mac kids _ room.list) in
      let (s2, ran2, w2) =
        run_writes_lem c (upstream_writes n.index up uids) s1 (upstream-Fits n.index up uids _) in
      let (s3, ran3, w3) = run_writes_lem c third s2 (room.count, (tt, tt)) in
      let (s4, ran4, w4) =
        run_writes_lem c (spine_dst_writes spines 0 n.id first ++ last) s3
          (spine_dst-Fits spines 0 n.id first last _ (λ r. (tt, (room.iq, (room.sq, tt))))) in
      let loop1 = servers_init t n.id port mac kids s known ∙ ran1 in
      let loop2 = upstream_init t n up uids s1 at_up ∙ ran2 in
      (
        s4,
        leaf_init_run t ups clients first rest l parent s s1 s2 s3 s4 at_parent loop1 loop2 ran3
            ran4,
        λ a wid m o.
            w4.entries forward_table (dst_key n.id wid)
            ∙ spine_dst-entries spines 0 n.id first last (dst_key n.id wid) _
            ∙ w3.entries forward_table (dst_key n.id wid)
            ∙ w2.entries forward_table (dst_key n.id wid)
            ∙ upstream-entries n.id n.index up wid uids _ (λ uid k. free a wid uid m o k)
            ∙ w1.entries forward_table (dst_key n.id wid)
            ∙ server_inits-entries t.nodes n.id port mac kids forward_table (dst_key n.id wid) _
            ∙ server_after t.nodes n.id port mac a wid kids _ (λ b k. (known b k).finite)
                (λ b k p. unique b a wid k m p o) o (ground (arith, (known a m).finite))
            ∙ ground arith,
      )
