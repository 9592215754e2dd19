-- ===== src/Switch/Leaf/Forward.antt =====
-- The forwarding table of a leaf after its servers have changed (ctrl_mgr/cp.go).
use horus_controller.Topology.State.{Topology}
use horus_controller.Switch.Workers.Loop.{each_worker_lem}
use horus_controller.Switch.Workers.{dev_port, each_worker, workers_from, worker_fuel}
use horus_controller.Switch.Mac.{mac_data}
use mathlib.Core.Path.{subst}
use horus_controller.Topology.Numbering.Owners.{owns}
use horus_controller.Switch.Writes.{
  value_after, Fits, run_writes-append, entry_after-append, entry_after,
}
use horus_controller.Switch.Leaf.{forward_worker, forward_servers, leaf_forward, worker_index}
use horus_controller.Switch.Spine.{exact}
use horus_controller.Switch.{
  SwitchClient, run_write, run_writes, KeyField, SwitchEntry, table_entry, bytes_data, Write,
}
use horus_controller.Node.{Node, Nodes}
use horus_controller.Prelude.{
  bind_congr, Outcome-cases, ◌>>=◌, returned, sym, inl, inr, nat_beq, Bool-cases, ap, ℕ, zero, suc,
  ◌+◌, ◌-◌, ◌<◌, ◌≤◌, ◌≡◌, refl, ◌∙◌, arith, String, true, ◌&&◌, Option, some, List, [], ◌∷◌, ◌++◌,
  if◌then◌else◌, leb, ltb, elem,
}

abbrev pub forward_table : String
forward_table = "pipe_leaf.LeafIngress.forward_horus_switch_dst"

abbrev pub dst_key : ℕ → ℕ → List KeyField
dst_key leaf_id wid =
    exact "hdr.horus.dst_id" (worker_index leaf_id wid) ∷ exact "hdr.horus.pool_id" leaf_id ∷ []

abbrev pub forward_entry : ℕ → ℕ → ℕ → ℕ → SwitchEntry
forward_entry leaf_id wid port mac =
    table_entry forward_table (dst_key leaf_id wid) "LeafIngress.act_forward_horus"
      (bytes_data "port" port ∷ bytes_data "dst_mac" mac ∷ [])

-- The worker IDs of a server are in uint16, and the last is not 65535, where the loop over them does
-- not end.
abbrev pub IsFinite : Node → Type 0
IsFinite n = (n.first_worker_id < 65536) × (n.last_worker_id < 65535)

-- The writes for `n` workers of a server, from `wid` on.
abbrev pub worker_writes : ℕ → ℕ → ℕ → ℕ → ℕ → List Write
worker_writes leaf_id port mac zero wid = []
worker_writes leaf_id port mac (suc n) wid =
    leaf_forward (worker_index leaf_id wid) leaf_id port mac
    ∷ worker_writes leaf_id port mac n (suc wid)

-- The rounds of the loop over the workers of a server.
abbrev pub rounds : Node → ℕ
rounds n = n.last_worker_id + 1 - n.first_worker_id

-- The writes for a list of servers.
abbrev pub server_writes : Nodes → ℕ → (ℕ → ℕ) → (ℕ → ℕ) → List ℕ → List Write
server_writes nodes leaf_id port mac [] = []
server_writes nodes leaf_id port mac (a ∷ rest) =
    worker_writes leaf_id (port a) (mac a) (rounds (nodes a)) (nodes a).first_worker_id
    ++ server_writes nodes leaf_id port mac rest

worker_index-injective :
    (leaf_id i j : ℕ)
    → i < 65536
    → j < 65536
    → worker_index leaf_id i ≡ worker_index leaf_id j
    → i ≡ j
worker_index-injective leaf_id i j b b' e = omega arith

worker_after :
    (leaf_id port mac n first wid : ℕ) (old : Option SwitchEntry)
    → first + n ≤ 65536
    → wid < 65536
    → entry_after (worker_writes leaf_id port mac n first) forward_table (dst_key leaf_id wid) old
      ≡ (if leb first wid && ltb wid (first + n)
          then some (forward_entry leaf_id wid port mac)
          else old)
worker_after leaf_id port mac zero first wid old b w = ground arith
worker_after leaf_id port mac (suc n) first wid old b w =
    worker_after leaf_id port mac n (suc first) wid _ (omega arith) w
    ∙ ground (arith, worker_index-injective leaf_id first wid)

pub server_after :
    (nodes : Nodes) (leaf_id : ℕ) (port mac : ℕ → ℕ) (a wid : ℕ) (xs : List ℕ)
    (old : Option SwitchEntry)
    → ((b : ℕ) → elem b xs ≡ true → IsFinite (nodes b))
    → ((b : ℕ) → elem b xs ≡ true → owns (nodes b) wid ≡ true → b ≡ a)
    → owns (nodes a) wid ≡ true
    → wid < 65535
    → entry_after (server_writes nodes leaf_id port mac xs) forward_table (dst_key leaf_id wid) old
      ≡ (if elem a xs then some (forward_entry leaf_id wid (port a) (mac a)) else old)
server_after nodes leaf_id port mac a wid [] old b u o w = refl
server_after nodes leaf_id port mac a wid (x ∷ xs) old b u o w =
    let fin : IsFinite (nodes x) = b x (ground arith) in
    entry_after-append
      (worker_writes leaf_id (port x) (mac x) (rounds (nodes x)) (nodes x).first_worker_id)
      (server_writes nodes leaf_id port mac xs) forward_table (dst_key leaf_id wid) old
    ∙ server_after nodes leaf_id port mac a wid xs _ (λ c m. b c (ground arith))
        (λ c m. u c (ground arith)) o w
    ∙ ap (λ e. if elem a xs then some (forward_entry leaf_id wid (port a) (mac a)) else e)
        (worker_after leaf_id (port x) (mac x) (rounds (nodes x)) (nodes x).first_worker_id wid old
          (omega (arith, fin)) (omega arith))
    ∙ elim (Bool-cases (nat_beq x a)) [
      | inl e ↦
          let same : x ≡ a = ground arith in
          subst
            (λ y.
              (if elem a xs
                then some (forward_entry leaf_id wid (port a) (mac a))
                else (if leb (nodes y).first_worker_id wid
                      && ltb wid ((nodes y).first_worker_id + rounds (nodes y))
                    then some (forward_entry leaf_id wid (port y) (mac y))
                    else old))
              ≡ (if (if nat_beq y a then true else elem a xs)
                  then some (forward_entry leaf_id wid (port a) (mac a))
                  else old))
            (sym same) (ground arith)
      | inr e ↦ ground (arith, u x, fin)
    ]

worker_values :
    (leaf_id port mac n wid : ℕ) (vs : List Write) (q : String) (j : ℕ) (old : Option ℕ)
    → value_after (worker_writes leaf_id port mac n wid ++ vs) q j old ≡ value_after vs q j old
worker_values leaf_id port mac zero wid vs q j old = refl
worker_values leaf_id port mac (suc n) wid vs q j old =
    worker_values leaf_id port mac n (suc wid) vs q j old

pub server_values :
    (nodes : Nodes) (leaf_id : ℕ) (port mac : ℕ → ℕ) (xs : List ℕ) (q : String) (j : ℕ)
    (old : Option ℕ)
    → value_after (server_writes nodes leaf_id port mac xs) q j old ≡ old
server_values nodes leaf_id port mac [] q j old = refl
server_values nodes leaf_id port mac (x ∷ xs) q j old =
    worker_values leaf_id (port x) (mac x) (rounds (nodes x)) (nodes x).first_worker_id
      (server_writes nodes leaf_id port mac xs) q j old
    ∙ server_values nodes leaf_id port mac xs q j old

module _ (c : SwitchClient) where
  open c use {State, read_table_entry}

  -- The port and the MAC address of a server are known.
  pub record IsKnown (t : Topology) (port mac : ℕ → ℕ) (a : ℕ) : Type 0 where
    pub mac_eq : mac_data (t.nodes a).address ≡ returned (mac a)
    pub port_eq : dev_port t (t.nodes a).port ≡ returned (port a)
    pub finite : IsFinite (t.nodes a)

  workers_run :
      (t : Topology) (leaf_id a : ℕ) (port mac : ℕ → ℕ) (n wid : ℕ) (s : State)
      → IsKnown t port mac a
      → workers_from n wid (forward_worker c t leaf_id (t.nodes a)) s
        ≡ run_writes c (worker_writes leaf_id (port a) (mac a) n wid) s
  unfolding workers_from forward_worker run_writes
  workers_run t leaf_id a port mac zero wid s k = refl
  workers_run t leaf_id a port mac (suc n) wid s k =
      let w = leaf_forward (worker_index leaf_id wid) leaf_id (port a) (mac a) in
      elim (Outcome-cases (run_write c w s)) [
        | inl (u, ran) ↦ ground (arith, ran, k, workers_run t leaf_id a port mac n (suc wid) u k)
        | inr (inl e) ↦ ground (arith, e, k)
        | inr (inr e) ↦ ground (arith, e, k)
      ]

  pub servers_run :
      (t : Topology) (leaf_id : ℕ) (port mac : ℕ → ℕ) (xs : List ℕ) (s : State)
      → ((a : ℕ) → elem a xs ≡ true → IsKnown t port mac a)
      → forward_servers c t leaf_id xs s
        ≡ run_writes c (server_writes t.nodes leaf_id port mac xs) s
  unfolding forward_servers run_writes
  servers_run t leaf_id port mac [] s known = refl
  servers_run t leaf_id port mac (x ∷ xs) s known =
      let k : IsKnown t port mac x = known x (ground arith) in
      let n = t.nodes x in
      let ws = worker_writes leaf_id (port x) (mac x) (rounds n) n.first_worker_id in
      let loop : each_worker worker_fuel n.first_worker_id n.last_worker_id
            (forward_worker c t leaf_id n) s
          ≡ run_writes c ws s =
        each_worker_lem n.first_worker_id n.last_worker_id (forward_worker c t leaf_id n) s
          k.finite.0 k.finite.1
        ∙ workers_run t leaf_id x port mac (rounds n) n.first_worker_id s k in
      ap (λ m. m >>= forward_servers c t leaf_id xs) loop
      ∙ bind_congr (run_writes c ws s) (forward_servers c t leaf_id xs)
          (run_writes c (server_writes t.nodes leaf_id port mac xs))
          (λ u. servers_run t leaf_id port mac xs u (λ a m. known a (ground arith)))
      ∙ sym (run_writes-append c ws (server_writes t.nodes leaf_id port mac xs) s)

  worker_writes-Fits :
      (leaf_id port mac n wid : ℕ) (vs : List Write)
      (read : String → List KeyField → Option SwitchEntry)
      → ((r : String → List KeyField → Option SwitchEntry) → Fits c vs r)
      → Fits c (worker_writes leaf_id port mac n wid ++ vs) read
  worker_writes-Fits leaf_id port mac zero wid vs read f = f read
  worker_writes-Fits leaf_id port mac (suc n) wid vs read f =
      (tt, worker_writes-Fits leaf_id port mac n (suc wid) vs _ f)

  pub server_writes-Fits :
      (nodes : Nodes) (leaf_id : ℕ) (port mac : ℕ → ℕ) (xs : List ℕ)
      (read : String → List KeyField → Option SwitchEntry)
      → Fits c (server_writes nodes leaf_id port mac xs) read
  server_writes-Fits nodes leaf_id port mac [] read = tt
  server_writes-Fits nodes leaf_id port mac (x ∷ xs) read =
      worker_writes-Fits leaf_id (port x) (mac x) (rounds (nodes x)) (nodes x).first_worker_id _
        read (λ r. server_writes-Fits nodes leaf_id port mac xs r)

  -- Every worker ID of the servers `kids` of a leaf leads to the port and the MAC address of the
  -- server that owns it.
  abbrev pub IsServed : Nodes → ℕ → (ℕ → ℕ) → (ℕ → ℕ) → List ℕ → State → Type 0
  IsServed nodes leaf_id port mac kids s =
      (a wid : ℕ)
      → elem a kids ≡ true
      → owns (nodes a) wid ≡ true
      → read_table_entry forward_table (dst_key leaf_id wid) s
        ≡ some (forward_entry leaf_id wid (port a) (mac a))
