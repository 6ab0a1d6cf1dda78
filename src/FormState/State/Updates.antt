-- ===== src/FormState/State/Updates.antt =====
-- `updateListItem` changes one item.
use go_resolver.Base.{
  ℕ, zero, suc, ◌+◌, ◌≡◌, ◌≢◌, refl, arith, List, [], ◌∷◌, length, get_elem?, ◌==◌, if◌then◌else◌,
}
use go_resolver.FormState.State.{update_from, update_list_item}
use mathlib.Core.Option

module _ {A : Type 0} (index : ℕ) (set : A → A) where
  length-update_from :
      (at : ℕ) (items : List A) → length (update_from at items index set) ≡ length items
  unfolding update_from
  length-update_from at [] = refl
  length-update_from at (x ∷ items) = omega (arith, length-update_from (suc at) items)

  get_elem?-update_from :
      (at : ℕ) (items : List A) (j : ℕ)
      → get_elem? (update_from at items index set) j
        ≡ (if at + j == index then Option.map set (get_elem? items j) else get_elem? items j)
  unfolding update_from
  get_elem?-update_from at [] j = ground arith
  get_elem?-update_from at (x ∷ items) zero = ground arith
  get_elem?-update_from at (x ∷ items) (suc j) =
      let sum : suc at + j ≡ at + suc j = omega arith in
      rw (← sum) (get_elem?-update_from (suc at) items j)

  -- The list keeps its length, the item at the index is changed, and every other item stays.
  update_list_item_lem :
      (items : List A) (j : ℕ)
      → (length (update_list_item items index set) ≡ length items)
        × (get_elem? (update_list_item items index set) index
            ≡ Option.map set (get_elem? items index))
        × (j ≢ index → get_elem? (update_list_item items index set) j ≡ get_elem? items j)
  unfolding update_list_item
  update_list_item_lem items j = (
    length-update_from 0 items,
    ground (arith, get_elem?-update_from 0 items index),
    λ other. ground (arith, get_elem?-update_from 0 items j),
  )
