-- ===== src/Topology/Numbering/Owners.antt =====
-- Consecutive ranges give every worker ID one owner.
use horus_controller.Prelude.Words.{add16}
use horus_controller.Prelude.{
  ℕ, suc, ◌+◌, ◌<◌, ◌≡◌, Bool, ◌&&◌, List, [], ◌∷◌, arith, ltb, leb, if◌then◌else◌, All,
}
use horus_controller.Node.{Node, Nodes}
use horus_controller.Topology.RemoveServer.Layout.{IsLaidOut, end_of}

-- Does the worker ID lie in the range of the server?
abbrev pub owns : Node → ℕ → Bool
owns n wid = leb n.first_worker_id wid && leb wid n.last_worker_id

-- How many servers of the list own the worker ID.
abbrev pub owners : Nodes → ℕ → List ℕ → ℕ
owners nodes wid [] = 0
owners nodes wid (x ∷ xs) =
    let rest = owners nodes wid xs in if owns (nodes x) wid then suc rest else rest

-- The sum of the sizes, which does not wrap.
abbrev pub sum_of : (ℕ → ℕ) → List ℕ → ℕ
sum_of counts [] = 0
sum_of counts (x ∷ xs) = counts x + sum_of counts xs

pub owners_lem :
    (nodes : Nodes) (counts : ℕ → ℕ) (wid w : ℕ) (xs : List ℕ)
    → IsLaidOut nodes counts w xs
    → All (λ c. 0 < counts c) xs
    → w + sum_of counts xs < 65536
    → owners nodes wid xs ≡ (if leb w wid && ltb wid (w + sum_of counts xs) then 1 else 0)
owners_lem nodes counts wid w [] l p b = ground arith
owners_lem nodes counts wid w (x ∷ xs) l p b =
    let next : add16 w (counts x) ≡ w + counts x = omega arith in
    let ih = owners_lem nodes counts wid (add16 w (counts x)) xs l.2 p.1 (omega arith) in
    ground (arith, ih, next)

pub end_of-sum :
    (counts : ℕ → ℕ) (w : ℕ) (xs : List ℕ)
    → w + sum_of counts xs < 65536
    → end_of counts w xs ≡ w + sum_of counts xs
end_of-sum counts w [] b = omega arith
end_of-sum counts w (x ∷ xs) b =
    omega (arith, end_of-sum counts (add16 w (counts x)) xs (omega arith))
