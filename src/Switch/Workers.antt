-- ===== src/Switch/Workers.antt =====
-- ctrl_mgr/cp.go, core/model/constants.go, core/model/port.go: what the tables say of a node, and the
-- loop over the worker IDs of a server.
pub mod Loop
use horus_controller.Topology.State.{Topology}
use horus_controller.Topology.RemoveServer.{workers_count}
use horus_controller.Asic.{PortRef}
use horus_controller.GoMap.{GoMap, load}
use horus_controller.Node.{Nodes}
use horus_controller.Prelude.{
  ℕ, zero, suc, String, true, false, Option, none, some, List, [], ◌∷◌, Outcome, returned, hung,
  ◌>>=◌, deref, leb, get_elem?, number_key, text_key,
}
use Prim.Native.String.{◌++◌ as text_append}
use horus_controller.Prelude.Words.{add16}

-- `port.GetDevPort()`, where the pointer may be nil.
unfoldable pub dev_port : Topology → Option PortRef → Outcome ℕ
unfolding load
dev_port t port = do
  ref ← deref port
  asic ← deref (load ref.asic t.asic_registry.asic_map)
  found ← deref (load ref.spec asic.port_registry.port_map)
  returned found.dev_port

-- The loop over the servers of a leaf that adds up their workers.
unfoldable pub count_workers : Nodes → List ℕ → ℕ → ℕ
count_workers nodes [] count = count
count_workers nodes (a ∷ rest) count =
    count_workers nodes rest (add16 count (workers_count (nodes a)))

abbrev pub worker_qlen_unit_map : GoMap ℕ ℕ
worker_qlen_unit_map = (4, 8) ∷ (8, 4) ∷ (16, 2) ∷ (32, 1) ∷ []

-- `WorkerQlenUnitMap[count]`, with the zero value of a key that the map does not have.
unfoldable pub qlen_unit : ℕ → ℕ
unfolding load
qlen_unit count = elim (load count worker_qlen_unit_map) [ none ↦ 0 | some unit ↦ unit ]

abbrev pub digits : List String
digits = "0" ∷ "1" ∷ "2" ∷ "3" ∷ "4" ∷ "5" ∷ "6" ∷ "7" ∷ "8" ∷ "9" ∷ []

-- `%d` of a number below ten.
abbrev pub digit : ℕ → String
digit n = elim (get_elem? digits n) [ none ↦ "" | some d ↦ d ]

-- `fmt.Sprintf("...%d", n)`
abbrev pub numbered : String → ℕ → String
numbered text n = text_append text (digit n)

module _ {ℓ} {S : Type ℓ} where
  -- `for wid := first; wid <= last; wid++` in uint16, on fuel.
  unfoldable pub each_worker : ℕ → ℕ → ℕ → (ℕ → S → Outcome S) → S → Outcome S
  each_worker zero wid last body s = hung
  each_worker (suc fuel) wid last body s = elim (leb wid last) [
    | false ↦ returned s
    | true ↦ body wid s >>= each_worker fuel (add16 wid 1) last body
  ]

  -- The same number of rounds by structural recursion: `n` workers from `wid` on.
  unfoldable pub workers_from : ℕ → ℕ → (ℕ → S → Outcome S) → S → Outcome S
  workers_from zero wid body s = returned s
  workers_from (suc n) wid body s = body wid s >>= workers_from n (suc wid) body

-- One round for every uint16, and the last test.
abbrev pub worker_fuel : ℕ
worker_fuel = 65537
