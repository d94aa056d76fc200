-- ===== src/Sort/Comparator.antt =====
-- The standard library's stable sort, `sort_by`, as insertion from the right, by a comparator.
use conflict_free_oltp_v.Base.{
  ℕ, length, filter, Bool, false, List, [], ◌∷◌, ◌≡◌, refl, is_lt, reverse, Ordering, arith,
  if◌then◌else◌,
}

module _ {ℓ} {A : Type ℓ} (compare_by : A → A → Ordering) where
  -- Before the first element that is not below: equal elements keep their order.
  unfoldable pub insert_with : A → List A → List A
  insert_with x [] = x ∷ []
  insert_with x (y ∷ l) =
      let rest = insert_with x l in if is_lt (compare_by y x) then y ∷ rest else x ∷ y ∷ l

  unfoldable pub sort_with : List A → List A
  unfolding insert_with
  sort_with [] = []
  sort_with (x ∷ l) = insert_with x (sort_with l)

  abbrev pub count : (A → Bool) → List A → ℕ
  count p l = length (filter p l)

  count-insert_with :
      (p : A → Bool) (x : A) (l : List A) → count p (insert_with x l) ≡ count p (x ∷ l)
  unfolding insert_with
  count-insert_with p x [] = refl
  count-insert_with p x (y ∷ l) = ground (arith, count-insert_with p x l)

  -- Sorting keeps the elements, as often as they occur.
  pub count-sort_with : (p : A → Bool) (l : List A) → count p (sort_with l) ≡ count p l
  unfolding sort_with
  count-sort_with p [] = refl
  count-sort_with p (x ∷ l) =
      ground (arith, count-insert_with p x (sort_with l), count-sort_with p l)

  -- No element is above the one after it.
  abbrev pub IsSorted : List A → Type 0
  IsSorted [] = Unit {0}
  IsSorted (x ∷ []) = Unit {0}
  IsSorted (x ∷ y ∷ l) = (is_lt (compare_by y x) ≡ false) × IsSorted (y ∷ l)

  module _ (swap : (a b : A) → compare_by b a ≡ reverse (compare_by a b)) where
    insert_with-IsSorted : (x : A) (l : List A) → IsSorted l → IsSorted (insert_with x l)
    unfolding insert_with
    insert_with-IsSorted x [] h = tt
    insert_with-IsSorted x (y ∷ []) h = ground (arith, swap x y)
    insert_with-IsSorted x (y ∷ z ∷ l) h =
        ground (arith, swap x y, swap x z, insert_with-IsSorted x (z ∷ l))

    pub sort_with-IsSorted : (l : List A) → IsSorted (sort_with l)
    unfolding sort_with
    sort_with-IsSorted [] = tt
    sort_with-IsSorted (x ∷ l) = insert_with-IsSorted x (sort_with l) (sort_with-IsSorted l)
