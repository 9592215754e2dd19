-- ===== src/Topology/Numbering/Add.antt =====
-- AddServerToLeaf (core/model/topology.go): the worker IDs of a new server.
use horus_controller.Topology.Numbering.Owners.{owns}
use horus_controller.Topology.Cases.{add_server_attached}
use horus_controller.Topology.RemoveServer.Layout.{IsLaidOut, end_of}
use horus_controller.Topology.Valid.{IsValid}
use horus_controller.Topology.AddServer.{
  add_server_to_leaf, next_worker_id, attach_server, server_port,
}
use horus_controller.Topology.Numbering.{
  counts_of, total_of, IsNumbered, IsLaidOut-congr, end_of-congr,
}
use horus_controller.Topology.RemoveServer.{workers_count}
use horus_controller.GoMap.{load}
use horus_controller.Prelude.Words.{u16, add16, sub16}
use horus_controller.Prelude.{
  none, ◌∙◌, returned, ok, ℕ, ◌<◌, ◌≡◌, refl, sym, ap, ◌≢◌, inl, inr, true, some, List, [], ◌∷◌,
  ◌++◌, arith, nat_beq, if◌then◌else◌, elem, number_key,
}
use horus_controller.Node.{Nodes}
use horus_controller.Info.{ServerInfo}
use horus_controller.Asic.{PortRef}
use horus_controller.Topology.State.{Topology}

-- A numbered leaf hands out the worker ID behind its last one, unless it has exactly one worker.
pub next_worker_id_lem :
    (nodes : Nodes) (l : ℕ)
    → IsNumbered nodes l
    → total_of nodes l < 65536
    → next_worker_id (nodes l) ≡ (if nat_beq (total_of nodes l) 1 then 0 else total_of nodes l)
next_worker_id_lem nodes l n b = elim n.last_eq [ inl e ↦ ground arith | inr e ↦ ground arith ]

pub IsLaidOut-append :
    (nodes : Nodes) (counts : ℕ → ℕ) (w b : ℕ) (xs : List ℕ)
    → IsLaidOut nodes counts w xs
    → (nodes b).first_worker_id ≡ end_of counts w xs
    → (nodes b).last_worker_id ≡ sub16 (add16 (end_of counts w xs) (counts b)) 1
    → IsLaidOut nodes counts w (xs ++ b ∷ [])
IsLaidOut-append nodes counts w b [] l f e = (f, e, tt)
IsLaidOut-append nodes counts w b (x ∷ xs) l f e =
    (l.0, l.1, IsLaidOut-append nodes counts (add16 w (counts x)) b xs l.2 f e)

pub end_of-append :
    (counts : ℕ → ℕ) (w b : ℕ) (xs : List ℕ)
    → end_of counts w (xs ++ b ∷ []) ≡ add16 (end_of counts w xs) (counts b)
end_of-append counts w b [] = refl
end_of-append counts w b (x ∷ xs) = end_of-append counts (add16 w (counts x)) b xs

pub end_of-lt : (counts : ℕ → ℕ) (w : ℕ) (xs : List ℕ) → w < 65536 → end_of counts w xs < 65536
end_of-lt counts w [] h = h
end_of-lt counts w (x ∷ xs) h = end_of-lt counts (add16 w (counts x)) xs (omega arith)

size_of_range : (f u : ℕ) → f < 65536 → u < 65536 → add16 (sub16 (sub16 (add16 f u) 1) f) 1 ≡ u
size_of_range f u h k = omega arith

module _ (info : ServerInfo) (port : PortRef) (k l : ℕ) (t : Topology) (v : IsValid t)
    (at_leaf : load k t.leaves ≡ some l) where
  abbrev pub new : Topology
  new = attach_server info port l t

  pub old_kid : (c : ℕ) → elem c (t.nodes l).children ≡ true → t.nodes c ≡ new.nodes c
  unfolding attach_server
  old_kid c m =
      let s = v.leaf_children k l c at_leaf m in
      ground (arith, v.servers_ok _ _ s.known, v.leaves_ok k l at_leaf)

  pub kids_eq : (new.nodes l).children ≡ (t.nodes l).children ++ t.next ∷ []
  unfolding attach_server
  kids_eq = ground (arith, v.leaves_ok k l at_leaf)

  module _ (n : IsNumbered t.nodes l) (many : total_of t.nodes l ≢ 1) where
    laid : IsLaidOut new.nodes (counts_of new.nodes) 0 (t.nodes l).children
    laid =
        IsLaidOut-congr t.nodes new.nodes (counts_of t.nodes) (counts_of new.nodes) 0
          (t.nodes l).children (λ c m. (old_kid c m, ap workers_count (old_kid c m))) n.laid_out

    total_eq : end_of (counts_of new.nodes) 0 (t.nodes l).children ≡ total_of t.nodes l
    total_eq = sym (
        end_of-congr (counts_of t.nodes) (counts_of new.nodes) 0 (t.nodes l).children
          (λ c m. ap workers_count (old_kid c m)))

    pub fresh_range :
        ((new.nodes t.next).first_worker_id ≡ total_of t.nodes l)
        × (counts_of new.nodes t.next ≡ u16 info.workers_count)
        × ((new.nodes t.next).last_worker_id
            ≡ sub16 (add16 (total_of t.nodes l) (counts_of new.nodes t.next)) 1)
        × ((new.nodes l).last_worker_id
            ≡ sub16 (add16 (total_of t.nodes l) (counts_of new.nodes t.next)) 1)
    unfolding attach_server
    fresh_range =
        let b = end_of-lt (counts_of t.nodes) 0 (t.nodes l).children (omega arith) in
        let first : next_worker_id (t.nodes l) ≡ total_of t.nodes l =
          ground (arith, next_worker_id_lem t.nodes l n b, many) in
        let size =
          size_of_range (next_worker_id (t.nodes l)) (u16 info.workers_count) (omega arith)
            (omega arith) in
        let old = v.leaves_ok k l at_leaf in
        (
          ground (arith, first),
          ground (arith, size),
          ground (arith, first, size),
          ground (arith, first, size, old),
        )

    pub attach_server-IsNumbered : IsNumbered new.nodes l
    attach_server-IsNumbered = record {
      laid_out = rw kids_eq (
          IsLaidOut-append new.nodes (counts_of new.nodes) 0 t.next (t.nodes l).children laid
            (fresh_range.0 ∙ sym total_eq) (rw total_eq fresh_range.2));
      last_eq = inl (
          rw (kids_eq, end_of-append (counts_of new.nodes) 0 t.next (t.nodes l).children, total_eq)
            fresh_range.3);
    }

-- AddServerToLeaf of a new server with a known port returns it as the last child of the leaf, with as
-- many workers as asked for (mod 2^16), and keeps the leaf numbered, if the leaf does not have
-- exactly one worker.
pub add_server-IsNumbered :
    (info : ServerInfo) (leaf_id l : ℕ) (port : PortRef) (t : Topology)
    → IsValid t
    → load leaf_id t.leaves ≡ some l
    → load (u16 info.id) t.servers ≡ none
    → server_port info (t.nodes l) t.asic_registry ≡ returned port
    → IsNumbered t.nodes l
    → total_of t.nodes l ≢ 1
    → (t' : Topology) × (add_server_to_leaf info leaf_id t ≡ returned (t', ok t.next))
      × IsNumbered t'.nodes l
      × ((t'.nodes l).children ≡ (t.nodes l).children ++ t.next ∷ [])
      × (counts_of t'.nodes t.next ≡ u16 info.workers_count)
add_server-IsNumbered info leaf_id l port t v h absent found n many = (
  attach_server info port l t,
  add_server_attached info leaf_id l port t h absent found,
  attach_server-IsNumbered info port leaf_id l t v h n many,
  kids_eq info port leaf_id l t v h,
  (fresh_range info port leaf_id l t v h n many).1,
)

-- AddServerToLeaf of a new server with workers and a known port, on a numbered leaf with one server
-- of exactly one worker: worker ID 0 is given a second time, so both servers own it.
pub add_server_overlap :
    (info : ServerInfo) (leaf_id l c : ℕ) (port : PortRef) (t : Topology)
    → IsValid t
    → load leaf_id t.leaves ≡ some l
    → load (u16 info.id) t.servers ≡ none
    → server_port info (t.nodes l) t.asic_registry ≡ returned port
    → IsNumbered t.nodes l
    → (t.nodes l).children ≡ c ∷ []
    → counts_of t.nodes c ≡ 1
    → 0 < u16 info.workers_count
    → (t' : Topology) × (add_server_to_leaf info leaf_id t ≡ returned (t', ok t.next))
      × ((t'.nodes l).children ≡ c ∷ t.next ∷ [])
      × (owns (t'.nodes c) 0 ≡ true)
      × (owns (t'.nodes t.next) 0 ≡ true)
add_server_overlap info leaf_id l c port t v h absent found n kids one some_workers =
    let laid : IsLaidOut t.nodes (counts_of t.nodes) 0 (c ∷ []) = rw kids at n.laid_out in
    let total : total_of t.nodes l ≡ 1 = rw (kids, one) in
    let first : next_worker_id (t.nodes l) ≡ 0 =
      ground (arith, next_worker_id_lem t.nodes l n (omega arith)) in
    let same_c : t.nodes c ≡ (attach_server info port l t).nodes c =
      old_kid info port leaf_id l t v h c (rw kids (ground arith)) in
    (
      attach_server info port l t,
      add_server_attached info leaf_id l port t h absent found,
      rw (kids_eq info port leaf_id l t v h, kids),
      rw (← same_c) (ground arith),
      unfold attach_server in ground (arith, first),
    )
