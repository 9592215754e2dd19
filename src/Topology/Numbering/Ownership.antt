-- ===== src/Topology/Numbering/Ownership.antt =====
-- The owners of worker IDs after RemoveServer (core/model/topology.go).
use horus_controller.Topology.RemoveServer.{remove_server}
use horus_controller.GoMap.{load}
use horus_controller.Prelude.{
  ℕ, ◌<◌, ◌≡◌, refl, true, some, List, [], ◌∷◌, arith, ltb, if◌then◌else◌, elem, All, without,
  returned, number_key,
}
use horus_controller.Topology.State.{Topology}
use horus_controller.Topology.Valid.{IsValid, parent_at}
use horus_controller.Topology.Numbering.{counts_of}
use horus_controller.Topology.Numbering.Owners.{owners, sum_of, owners_lem}
use horus_controller.Topology.Numbering.Remove.{remove_server_lem}

pub sum_of-congr :
    (f g : ℕ → ℕ) (xs : List ℕ)
    → ((c : ℕ) → elem c xs ≡ true → f c ≡ g c)
    → sum_of f xs ≡ sum_of g xs
sum_of-congr f g [] h = refl
sum_of-congr f g (x ∷ xs) h =
    omega (arith, h x (ground arith), sum_of-congr f g xs (λ c k. h c (ground arith)))

pub All-congr :
    (f g : ℕ → ℕ) (xs : List ℕ)
    → ((c : ℕ) → elem c xs ≡ true → f c ≡ g c)
    → All (λ c. 0 < f c) xs
    → All (λ c. 0 < g c) xs
All-congr f g [] h p = tt
All-congr f g (x ∷ xs) h p =
    (omega (arith, h x (ground arith), p.0), All-congr f g xs (λ c k. h c (ground arith)) p.1)

-- After RemoveServer of a server of a well-formed topology whose remaining siblings have a worker
-- each and fewer than 2^16 in all, every worker ID below their number has exactly one owner among
-- the servers of the leaf, and every other worker ID has none.
pub remove_server-owners :
    (sid a wid : ℕ) (t : Topology)
    → IsValid t
    → load sid t.servers ≡ some a
    → let rest = without a (t.nodes (parent_at (t.nodes a))).children in
      All (λ c. 0 < counts_of t.nodes c) rest
      → sum_of (counts_of t.nodes) rest < 65536
      → (t' : Topology) × (updated : List ℕ) × (remove_server sid t ≡ returned (t', true, updated))
        × (owners t'.nodes wid (t'.nodes (parent_at (t.nodes a))).children
            ≡ (if ltb wid (sum_of (counts_of t.nodes) rest) then 1 else 0))
remove_server-owners sid a wid t v h some_workers few =
    let (t', updated, ran, d) = remove_server_lem sid a t v h in
    let rest = without a (t.nodes (parent_at (t.nodes a))).children in
    let same : (c : ℕ) → elem c rest ≡ true → counts_of t.nodes c ≡ counts_of t'.nodes c =
      λ c m. ground (arith, d.sizes_kept c, d.children_eq) in
    let total = sum_of-congr (counts_of t.nodes) (counts_of t'.nodes) rest same in
    (
      t',
      updated,
      ran,
      rw d.children_eq (
          ground (
            arith,
            total,
            owners_lem t'.nodes (counts_of t'.nodes) wid 0 rest
                (rw d.children_eq at d.numbered.laid_out)
                (All-congr (counts_of t.nodes) (counts_of t'.nodes) rest same some_workers)
                (omega (arith, total)),
          )),
    )
