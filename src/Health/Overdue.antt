-- ===== src/Health/Overdue.antt =====
-- Which servers fail (core/leafHealthManager.go).
use horus_controller.Health.{has_failed, mark_failed}
use mathlib.Core.List.{append-nil, append_assoc}
use horus_controller.Prelude.{
  leb, ◌+◌, ◌<◌, ◌&&◌, Bool, ℕ, ◌≡◌, refl, sym, ap, ◌∙◌, inl, inr, true, false, List, [], ◌∷◌, ◌++◌,
  arith, if◌then◌else◌, Bool-cases, elem, IsDistinct,
}
use horus_controller.Node.{write, Node, Nodes}

-- The server was healthy and ready, and has been silent for the timeout.
abbrev pub is_overdue : ℕ → ℕ → Node → Bool
is_overdue now timeout n = (n.healthy && n.ready) && leb (n.last_ping_time + timeout) now

-- The servers that are overdue, in order.
abbrev pub overdue : ℕ → ℕ → Nodes → List ℕ → List ℕ
overdue now timeout nodes [] = []
overdue now timeout nodes (a ∷ rest) =
    let others = overdue now timeout nodes rest in
    if is_overdue now timeout (nodes a) then a ∷ others else others

overdue-congr :
    (now timeout : ℕ) (m n : Nodes) (xs : List ℕ)
    → ((c : ℕ) → elem c xs ≡ true → m c ≡ n c)
    → overdue now timeout m xs ≡ overdue now timeout n xs
overdue-congr now timeout m n [] h = refl
overdue-congr now timeout m n (x ∷ xs) h =
    rw (h x (ground arith), overdue-congr now timeout m n xs (λ c k. h c (ground arith)))

overdue-elem :
    (now timeout : ℕ) (nodes : Nodes) (c : ℕ) (xs : List ℕ)
    → elem c xs ≡ false
    → elem c (overdue now timeout nodes xs) ≡ false
overdue-elem now timeout nodes c [] h = refl
overdue-elem now timeout nodes c (x ∷ xs) h = ground (arith, overdue-elem now timeout nodes c xs)

-- The test of the loop.
has_failed_lem :
    (now timeout : ℕ) (n : Node) → 0 < timeout → has_failed now timeout n ≡ is_overdue now timeout n
has_failed_lem now timeout n h = ground arith

-- A server that is marked.
abbrev pub marked : Node → Node
marked n = record n { healthy = false; ready = false }

mark_nodes :
    (now timeout : ℕ) (xs : List ℕ) (nodes : Nodes) (failed : List ℕ) (c : ℕ)
    → 0 < timeout
    → IsDistinct xs
    → (mark_failed now timeout xs nodes failed).0 c
      ≡ (if elem c (overdue now timeout nodes xs) then marked (nodes c) else nodes c)
unfolding mark_failed
mark_nodes now timeout [] nodes failed c h d = refl
mark_nodes now timeout (x ∷ xs) nodes failed c h d =
    let test = has_failed_lem now timeout (nodes x) h in
    let after = write x (marked (nodes x)) nodes in
    let same : overdue now timeout after xs ≡ overdue now timeout nodes xs =
      overdue-congr now timeout after nodes xs (λ b k. ground arith) in
    elim (Bool-cases (is_overdue now timeout (nodes x))) [
      | inl e ↦
          rw (test ∙ e, e, mark_failed)
            (mark_nodes now timeout xs after (failed ++ x ∷ []) c h d.1
              ∙ ap (λ l. if elem c l then marked (after c) else after c) same
              ∙ ground (arith, overdue-elem now timeout nodes c xs, d))
      | inr e ↦ rw (test ∙ e, e, mark_failed) (mark_nodes now timeout xs nodes failed c h d.1)
    ]

mark_collects :
    (now timeout : ℕ) (xs : List ℕ) (nodes : Nodes) (failed : List ℕ)
    → 0 < timeout
    → IsDistinct xs
    → (mark_failed now timeout xs nodes failed).1 ≡ failed ++ overdue now timeout nodes xs
unfolding mark_failed
mark_collects now timeout [] nodes failed h d = sym (append-nil failed)
mark_collects now timeout (x ∷ xs) nodes failed h d =
    let test = has_failed_lem now timeout (nodes x) h in
    let after = write x (marked (nodes x)) nodes in
    elim (Bool-cases (is_overdue now timeout (nodes x))) [
      | inl e ↦
          rw (test ∙ e, e, mark_failed)
            (mark_collects now timeout xs after (failed ++ x ∷ []) h d.1
              ∙ append_assoc failed (x ∷ []) (overdue now timeout after xs)
              ∙ ap (λ u. failed ++ x ∷ u)
                  (overdue-congr now timeout after nodes xs (λ c k. ground arith)))
      | inr e ↦ rw (test ∙ e, e, mark_failed) (mark_collects now timeout xs nodes failed h d.1)
    ]

-- The loop collects, in order, behind the servers already collected, exactly the servers that are healthy
-- and ready and whose last ping is a timeout or more ago, and takes both flags from these servers
-- and changes no other node. The servers of the loop must all be different, and the timeout not 0.
pub mark_failed_lem :
    (now timeout : ℕ) (xs : List ℕ) (nodes : Nodes) (failed : List ℕ)
    → 0 < timeout
    → IsDistinct xs
    → let late = overdue now timeout nodes xs in
      let r = mark_failed now timeout xs nodes failed in
      (r.1 ≡ failed ++ late)
      × ((c : ℕ) → r.0 c ≡ (if elem c late then marked (nodes c) else nodes c))
mark_failed_lem now timeout xs nodes failed h d = (
  mark_collects now timeout xs nodes failed h d,
  λ c. mark_nodes now timeout xs nodes failed c h d,
)
