-- ===== src/Switch/Workers/Loop.antt =====
-- The loop over the worker IDs of a server (ctrl_mgr/cp.go) and its end.
use horus_controller.Switch.Workers.{each_worker, workers_from, worker_fuel}
use horus_controller.Prelude.{
  inl, inr, Outcome-cases, ℕ, zero, suc, ◌+◌, ◌-◌, ◌<◌, ◌≡◌, refl, arith, Outcome, returned, hung,
}
use horus_controller.Prelude.Words.{add16}

module _ {S : Type 0} where
  each_worker_rounds :
      (n fuel first last : ℕ) (body : ℕ → S → Outcome S) (s : S)
      → last < 65535
      → last + 1 - first ≡ n
      → n < fuel
      → each_worker fuel first last body s ≡ workers_from n first body s
  unfolding each_worker workers_from
  each_worker_rounds n zero first last body s b e f = ground arith
  each_worker_rounds zero (suc fuel) first last body s b e f = ground arith
  each_worker_rounds (suc n) (suc fuel) first last body s b e f =
      elim (Outcome-cases (body first s)) [
        | inl (u, ran) ↦ ground (arith, each_worker_rounds n fuel (suc first) last body u)
        | inr (inl e') ↦ ground (arith, e')
        | inr (inr e') ↦ ground (arith, e')
      ]

  -- The loop over the worker IDs of a server, whose last ID is not 65535, ends within the fuel: it runs
  -- the body once for every ID from the first to the last, in order, and not at all where the last
  -- is below the first.
  pub each_worker_lem :
      (first last : ℕ) (body : ℕ → S → Outcome S) (s : S)
      → first < 65536
      → last < 65535
      → each_worker worker_fuel first last body s ≡ workers_from (last + 1 - first) first body s
  each_worker_lem first last body s k b =
      each_worker_rounds (last + 1 - first) worker_fuel first last body s b refl (omega arith)

  -- A server whose last worker ID is 65535 keeps the loop from ending: whatever the fuel, it runs out, if
  -- every round returns.
  pub each_worker_endless :
      (fuel first : ℕ) (body : ℕ → S → Outcome S) (s : S)
      → first < 65536
      → ((wid : ℕ) (u : S) → (u' : S) × (body wid u ≡ returned u'))
      → each_worker fuel first 65535 body s ≡ hung
  unfolding each_worker
  each_worker_endless zero first body s k runs = refl
  each_worker_endless (suc fuel) first body s k runs =
      let (u, ran) = runs first s in
      let rest : each_worker fuel (add16 first 1) 65535 body u ≡ hung =
        each_worker_endless fuel (add16 first 1) body u (omega arith) runs in
      ground (arith, ran, rest)
