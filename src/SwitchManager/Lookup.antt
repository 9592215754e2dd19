-- ===== src/SwitchManager/Lookup.antt =====
-- The loop of the switch manager that looks for a failed leaf (ctrl_mgr/manager.go), and the list without it.
use horus_controller.SwitchManager.Serving.{ctrl_at, HasOwnIds}
use horus_controller.Prelude.{
  ℕ, suc, ◌+◌, ◌≡◌, refl, inl, inr, Option, none, some, List, [], ◌∷◌, ◌++◌, arith, nat_beq,
  if◌then◌else◌, Bool-cases, remove_at, number_key,
}
use horus_controller.SwitchManager.{LeafController, find_leaf}

pub find_leaf-absent :
    (id : ℕ) (cs : List LeafController) (i : ℕ) (found : Option (ℕ × LeafController))
    → ctrl_at id cs ≡ none
    → find_leaf id cs i found ≡ found
unfolding find_leaf
find_leaf-absent id [] i found h = refl
find_leaf-absent id (c ∷ cs) i found h = ground (arith, find_leaf-absent id cs (suc i) found)

-- The position of the controller with an ID.
abbrev pub position : ℕ → List LeafController → ℕ
position id [] = 0
position id (c ∷ cs) = let rest = position id cs in if nat_beq c.id id then 0 else suc rest

pub find_leaf-found :
    (id : ℕ) (cs : List LeafController) (c : LeafController) (i : ℕ)
    (found : Option (ℕ × LeafController))
    → HasOwnIds cs
    → ctrl_at id cs ≡ some c
    → find_leaf id cs i found ≡ some (i + position id cs, c)
unfolding find_leaf
find_leaf-found id [] c i found own h = cc
find_leaf-found id (d ∷ cs) c i found own h = elim (Bool-cases (nat_beq d.id id)) [
  | inl e ↦ ground (arith, find_leaf-absent id cs (suc i) (some (i, d)), own)
  | inr e ↦ ground (arith, find_leaf-found id cs c (suc i) found own.1)
]

pub ctrl_at-remove_at :
    (id k : ℕ) (cs : List LeafController) (c : LeafController)
    → HasOwnIds cs
    → ctrl_at id cs ≡ some c
    → ctrl_at k (remove_at (position id cs) cs) ≡ (if nat_beq id k then none else ctrl_at k cs)
ctrl_at-remove_at id k [] c own h = cc
ctrl_at-remove_at id k (d ∷ cs) c own h = elim (Bool-cases (nat_beq d.id id)) [
  | inl e ↦ ground (arith, own)
  | inr e ↦ ground (arith, ctrl_at-remove_at id k cs c own.1)
]

pub HasOwnIds-remove_at :
    (id : ℕ) (cs : List LeafController) (c : LeafController)
    → HasOwnIds cs
    → ctrl_at id cs ≡ some c
    → HasOwnIds (remove_at (position id cs) cs)
HasOwnIds-remove_at id [] c own h = tt
HasOwnIds-remove_at id (d ∷ cs) c own h = elim (Bool-cases (nat_beq d.id id)) [
  | inl e ↦ ground (arith, own)
  | inr e ↦ ground (arith, ctrl_at-remove_at id d.id cs c own.1, HasOwnIds-remove_at id cs c own.1)
]

pub ctrl_at-append :
    (k : ℕ) (cs : List LeafController) (c : LeafController)
    → ctrl_at c.id cs ≡ none
    → ctrl_at k (cs ++ c ∷ []) ≡ (if nat_beq c.id k then some c else ctrl_at k cs)
ctrl_at-append k [] c h = ground arith
ctrl_at-append k (d ∷ cs) c h = ground (arith, ctrl_at-append k cs c)

pub HasOwnIds-append :
    (cs : List LeafController) (c : LeafController)
    → HasOwnIds cs
    → ctrl_at c.id cs ≡ none
    → HasOwnIds (cs ++ c ∷ [])
HasOwnIds-append [] c own h = (refl, tt)
HasOwnIds-append (d ∷ cs) c own h =
    ground (arith, ctrl_at-append d.id cs c, HasOwnIds-append cs c own.1)
