-- ===== src/BTree/Weight.antt =====
-- The sum of a weight over the values of a map.
use conflict_free_oltp_v.Base.{ℕ, ◌+◌, some, List, [], ◌∷◌, ◌≡◌, Ord, arith}
use conflict_free_oltp_v.BTree.{BTreeMap, get, insert}
use conflict_free_oltp_v.BTree.Entries.{get_entry, insert_entry}

module _ {ℓ κ} {K : Type ℓ} {V : Type κ} ⦃o : Ord K⦄ (w : V → ℕ) where
  unfoldable pub weight_of : List (K × V) → ℕ
  weight_of [] = 0
  weight_of ((k, v) ∷ l) = w v + weight_of l

  unfoldable pub weight : BTreeMap K V → ℕ
  unfolding weight_of
  weight m = weight_of m.entries

  weight_of-insert_entry :
      (k : K) (v v' : V) (l : List (K × V))
      → get_entry k l ≡ some v
      → weight_of (insert_entry k v' l) + w v ≡ weight_of l + w v'
  unfolding weight_of get_entry insert_entry
  weight_of-insert_entry k v v' [] h = absurd (cc)
  weight_of-insert_entry k v v' ((j, u) ∷ l) h = ground (arith, weight_of-insert_entry k v v' l)

  -- A value replaced changes the sum by the difference.
  pub weight-insert :
      (k : K) (v v' : V) (m : BTreeMap K V)
      → get k m ≡ some v
      → weight (insert k v' m) + w v ≡ weight m + w v'
  unfolding weight get insert
  weight-insert k v v' m h = weight_of-insert_entry k v v' m.entries h
