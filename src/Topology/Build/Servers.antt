-- ===== src/Topology/Build/Servers.antt =====
-- The workers of a leaf that NewDCNFromTopoInfo has built (core/model/topology.go).
use horus_controller.Topology.RemoveServer.{workers_count}
use mathlib.Core.Path.{subst}
use horus_controller.Topology.Build.{put_child, build_servers}
use horus_controller.GoMap.{store}
use horus_controller.Prelude.Words.{u16, add16, sub16}
use mathlib.Core.List.{append-nil, append_assoc}
use horus_controller.Node.{Nodes, new_server}
use horus_controller.Prelude.{
  true, elem, ◌≤◌, ap, String, sym, ◌∙◌, arith, deref, >>=-returned, returned, false, nat_beq, ℕ,
  ◌+◌, ◌≡◌, ◌<◌, List, [], ◌∷◌, ◌++◌, length, number_key, text_key,
}
use horus_controller.Info.{ServerInfo}
use horus_controller.Topology.State.{find_port, or_fatal, Topology}
use horus_controller.Topology.RemoveServer.Layout.{IsLaidOut, end_of}
use horus_controller.Topology.Numbering.{counts_of}

-- The addresses of new nodes.
abbrev pub fresh : ℕ → List ServerInfo → List ℕ
fresh a [] = []
fresh a (i ∷ is) = a ∷ fresh (a + 1) is

-- The servers from the address `a` on have the IDs and the sizes that the messages ask for.
abbrev pub IsBuilt : Nodes → ℕ → List ServerInfo → Type 0
IsBuilt nodes a [] = Unit
IsBuilt nodes a (i ∷ is) =
    ((nodes a).id ≡ u16 i.id) × (counts_of nodes a ≡ u16 i.workers_count) × IsBuilt nodes (a + 1) is

pub IsBuilt-congr :
    (m n : Nodes) (a : ℕ) (infos : List ServerInfo)
    → ((c : ℕ) → a ≤ c → m c ≡ n c)
    → IsBuilt m a infos
    → IsBuilt n a infos
IsBuilt-congr m n a [] h b = tt
IsBuilt-congr m n a (i ∷ is) h b = (
  ap (λ x. x.id) (sym (h a (omega arith))) ∙ b.0,
  ap workers_count (sym (h a (omega arith))) ∙ b.1,
  IsBuilt-congr m n (a + 1) is (λ c le. h c (omega arith)) b.2,
)

pub elem-fresh : (a c : ℕ) (infos : List ServerInfo) → elem c (fresh a infos) ≡ true → a ≤ c
elem-fresh a c [] m = cc
elem-fresh a c (i ∷ is) m = ground (arith, elem-fresh (a + 1) c is)

-- What the loop promises of the leaf `l`, which starts with the children `old` and the worker ID `w`.
pub record ServersBuilt (l w : ℕ) (infos : List ServerInfo) (t t' : Topology) (w' : ℕ)
    : Type 0 where
  pub next_eq : t'.next ≡ t.next + length infos
  pub children_eq : (t'.nodes l).children ≡ (t.nodes l).children ++ fresh t.next infos
  pub older_eq : (c : ℕ) → c < t.next → (nat_beq l c ≡ false) → t'.nodes c ≡ t.nodes c
  pub laid_out : IsLaidOut t'.nodes (counts_of t'.nodes) w (fresh t.next infos)
  pub end_eq : w' ≡ end_of (counts_of t'.nodes) w (fresh t.next infos)
  pub leaves_eq : t'.leaves ≡ t.leaves
  pub index_eq : (c : ℕ) → c < t.next → (t'.nodes c).index ≡ (t.nodes c).index
  pub built : IsBuilt t'.nodes t.next infos

size_of_range : (f u : ℕ) → f < 65536 → u < 65536 → add16 (sub16 (sub16 (add16 f u) 1) f) 1 ≡ u
size_of_range f u h k = omega arith

pub build_servers_lem :
    (asic : String) (l w w' : ℕ) (infos : List ServerInfo) (t t' : Topology)
    → w < 65536
    → l < t.next
    → build_servers asic l infos w t ≡ returned (t', w')
    → ServersBuilt l w infos t t' w'
unfolding build_servers
build_servers_lem asic l w w' [] t t' b k h =
    let e : t' ≡ t = ground arith in
    record {
      next_eq = ground arith;
      children_eq = rw e (sym (append-nil (t.nodes l).children));
      older_eq = λ c lt other. ground arith;
      laid_out = tt;
      end_eq = ground arith;
      leaves_eq = ground arith;
      index_eq = λ c lt. ground arith;
      built = tt;
    }
build_servers_lem asic l w w' (info ∷ infos) t t' b k h =
    let (port_info, one, h1) = >>=-returned (deref info.port) _ h in
    let (port, two, h2) =
      >>=-returned (or_fatal (find_port asic port_info.id t.asic_registry)) _ h1 in
    let next = add16 w (u16 info.workers_count) in
    let n = new_server info.address (u16 info.id) port in
    let put = put_child (record n { first_worker_id = w; last_worker_id = sub16 next 1 }) l t in
    let t1 : Topology = record put { servers = store (u16 info.id) t.next put.servers } in
    let ih = build_servers_lem asic l next w' infos t1 t' (omega arith) (omega arith) h2 in
    let behind = fresh (t.next + 1) infos in
    let kept : t'.nodes t.next ≡ t1.nodes t.next =
      ih.older_eq t.next (omega arith) (ground arith) in
    let size = size_of_range w (u16 info.workers_count) b (omega arith) in
    let count : counts_of t'.nodes t.next ≡ u16 info.workers_count =
      rw kept (ground (arith, size)) in
    let grown : (t1.nodes l).children ≡ (t.nodes l).children ++ t.next ∷ [] = ground arith in
    record {
      next_eq = omega (arith, ih.next_eq);
      children_eq =
          ih.children_eq
          ∙ (ap (λ u. u ++ behind) grown ∙ append_assoc (t.nodes l).children (t.next ∷ []) behind);
      older_eq = λ c lt other. ground (arith, ih.older_eq c);
      laid_out = (
        rw kept (ground arith),
        rw (count, kept) (ground arith),
        subst (λ u. IsLaidOut t'.nodes (counts_of t'.nodes) (add16 w u) behind) (sym count)
            ih.laid_out,
      );
      end_eq =
          subst (λ u. w' ≡ end_of (counts_of t'.nodes) (add16 w u) behind) (sym count) ih.end_eq;
      leaves_eq = ih.leaves_eq;
      index_eq = λ c lt. ground (arith, ih.index_eq c);
      built = (rw kept (unfold new_server in ground arith), count, ih.built);
    }
