-- ===== src/Sort.antt =====
-- The standard library's stable sort, `sort_by`, as insertion from the right, by a key.
pub mod Stable
pub mod Comparator
use mathlib.Core.List.{List, [], ◌∷◌, map}
use conflict_free_oltp_v.Base.{
  Bool, true, false, Option, none, some, ◌≡◌, refl, sym, ap, ◌∙◌, Ord, beq, blt, any, find, ◌||◌,
  if◌then◌else◌, arith, Bool-cases, Option-cases, inl, inr, beq_refl, beq_comm, eq_of_beq,
}
use conflict_free_oltp_v.BTree.{BTreeMap, get, insert, empty}
use conflict_free_oltp_v.BTree.Entries.{get_entry, insert_entry}
use conflict_free_oltp_v.BTree.Laws.{get-insert, get-empty, map_ext}

module _ {ℓ κ} {A : Type ℓ} {K : Type κ} ⦃o : Ord K⦄ (key : A → K) where
  -- Before the first element that is not below: equal elements keep their order.
  unfoldable pub insert_sorted : A → List A → List A
  insert_sorted x [] = x ∷ []
  insert_sorted x (y ∷ l) =
      let rest = insert_sorted x l in if blt (key y) (key x) then y ∷ rest else x ∷ y ∷ l

  unfoldable pub sort_by : List A → List A
  unfolding insert_sorted
  sort_by [] = []
  sort_by (x ∷ l) = insert_sorted x (sort_by l)

  -- Sorting keeps the elements.
  any-insert_sorted :
      (p : A → Bool) (x : A) (l : List A) → any p (insert_sorted x l) ≡ (p x || any p l)
  unfolding insert_sorted
  any-insert_sorted p x [] = refl
  any-insert_sorted p x (y ∷ l) = ground (arith, any-insert_sorted p x l)

  pub any-sort_by : (p : A → Bool) (l : List A) → any p (sort_by l) ≡ any p l
  unfolding sort_by
  any-sort_by p [] = refl
  any-sort_by p (x ∷ l) = any-insert_sorted p x (sort_by l) ∙ ap (◌||◌ (p x)) (any-sort_by p l)
