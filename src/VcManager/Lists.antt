-- ===== src/VcManager/Lists.antt =====
-- The lists of clusters by node (core/vcManager.go): what the loops of AddVC and RemoveVC do to them.
use horus_controller.VcManager.{
  list_at, append_to_list, drop_first, remove_from_list, append_to_lists, remove_from_lists,
}
use horus_controller.Prelude.{
  ℕ, ◌≡◌, refl, ◌∙◌, inl, inr, true, List, [], ◌∷◌, ◌++◌, arith, nat_beq, if◌then◌else◌,
  Option-cases, elem, IsDistinct, without, without_absent, number_key,
}
use horus_controller.GoMap.{load, load-store, GoMap}
use horus_controller.Vc.{VirtualCluster}

list_at-append_to_list :
    (k j o : ℕ) (m : GoMap ℕ (List ℕ))
    → list_at j (append_to_list k o m)
      ≡ (if nat_beq k j then list_at j m ++ o ∷ [] else list_at j m)
unfolding append_to_list
list_at-append_to_list k j o m = ground (arith, load-store k j (list_at k m ++ o ∷ []) m)

-- A list gets the new cluster exactly if its key is among the IDs.
pub list_at-append_to_lists :
    (j o : ℕ) (ids : List ℕ) (m : GoMap ℕ (List ℕ))
    → IsDistinct ids
    → list_at j (append_to_lists ids o m)
      ≡ (if elem j ids then list_at j m ++ o ∷ [] else list_at j m)
unfolding append_to_lists
list_at-append_to_lists j o [] m d = refl
list_at-append_to_lists j o (id ∷ ids) m d =
    list_at-append_to_lists j o ids (append_to_list id o m) d.1
    ∙ ground (arith, list_at-append_to_list id j o m)

list_at-remove_from_list :
    (k j id : ℕ) (objects : ℕ → VirtualCluster) (m : GoMap ℕ (List ℕ))
    → list_at j (remove_from_list k id objects m)
      ≡ (if nat_beq k j then drop_first id objects (list_at j m) else list_at j m)
unfolding remove_from_list
list_at-remove_from_list k j id objects m = elim (Option-cases (load k m)) [
  | inl e ↦ ground (arith, e)
  | inr (l, e) ↦ ground (arith, e, load-store k j (drop_first id objects l) m)
]

pub list_at-remove_from_lists :
    (j id : ℕ) (objects : ℕ → VirtualCluster) (ks : List ℕ) (m : GoMap ℕ (List ℕ))
    → IsDistinct ks
    → list_at j (remove_from_lists ks id objects m)
      ≡ (if elem j ks then drop_first id objects (list_at j m) else list_at j m)
unfolding remove_from_lists
list_at-remove_from_lists j id objects [] m d = refl
list_at-remove_from_lists j id objects (k ∷ ks) m d =
    list_at-remove_from_lists j id objects ks (remove_from_list k id objects m) d.1
    ∙ ground (arith, list_at-remove_from_list k j id objects m)

-- Where only `o` has the cluster ID, dropping the first of that ID drops `o`.
pub drop_first-without :
    (id o : ℕ) (objects : ℕ → VirtualCluster) (xs : List ℕ)
    → IsDistinct xs
    → ((c : ℕ) → elem c xs ≡ true → nat_beq (objects c).cluster_id id ≡ nat_beq c o)
    → drop_first id objects xs ≡ without o xs
unfolding drop_first
drop_first-without id o objects [] d h = refl
drop_first-without id o objects (x ∷ xs) d h = ground (
  arith,
  h x,
  without_absent o xs,
  drop_first-without id o objects xs d.1 (λ c m. h c (ground arith)),
)
