-- ===== src/BTree/Each.antt =====
-- A property of every entry of a map, after a change of one entry.
use conflict_free_oltp_v.Base.{
  Bool, Option, none, some, ◌≡◌, sym, ◌∙◌, subst, Ord, beq, eq_of_beq, Bool-cases, Option-cases,
  inl, inr, arith,
}
use conflict_free_oltp_v.BTree.{BTreeMap, get, insert, update_entry, remove, retain, empty}
use conflict_free_oltp_v.BTree.Laws.{get-insert, get-remove, get-retain, get-empty}
use conflict_free_oltp_v.BTree.Join.{Each}

module _ {ℓ κ μ} {K : Type ℓ} {V : Type κ} ⦃o : Ord K⦄ (P : K → V → Type μ) where
  some_injective : (v w : V) → some v ≡ some w → v ≡ w
  some_injective v w h = cc

  pub Each-empty : Each P empty
  Each-empty k v found = absurd (ground (arith, get-empty {V = V} k))

  pub Each-insert : (k : K) (v : V) (m : BTreeMap K V) → P k v → Each P m → Each P (insert k v m)
  Each-insert k v m h each j w found = elim (Bool-cases (beq k j)) [
    | inl same ↦
        subst (λ i. P i w) (eq_of_beq k j same)
          (subst (P k) (some_injective v w (sym (get-insert k j v m ∙ rw same) ∙ found)) h)
    | inr other ↦ each j w (sym (get-insert k j v m ∙ rw other) ∙ found)
  ]

  -- The changed entry has the property if it does whatever was there, as far as it had it.
  pub Each-update_entry :
      (k : K) (f : Option V → V) (m : BTreeMap K V)
      → P k (f none)
      → ((v : V) → P k v → P k (f (some v)))
      → Each P m
      → Each P (update_entry k f m)
  unfolding update_entry
  Each-update_entry k f m fresh step each = elim (Option-cases (get k m)) [
    | inl missing ↦ Each-insert k (f (get k m)) m (subst (λ x. P k (f x)) (sym missing) fresh) each
    | inr (v, at) ↦
        Each-insert k (f (get k m)) m (subst (λ x. P k (f x)) (sym at) (step v (each k v at))) each
  ]

  pub Each-retain : (keep : K → V → Bool) (m : BTreeMap K V) → Each P m → Each P (retain keep m)
  Each-retain keep m each k v found = elim (Option-cases (get k m)) [
    | inl missing ↦ absurd (ground (arith, get-retain keep k m))
    | inr (w, at) ↦
        subst (P k) (some_injective w v (ground (arith, get-retain keep k m))) (each k w at)
  ]

  pub Each-remove : (k : K) (m : BTreeMap K V) → Each P m → Each P (remove k m)
  Each-remove k m each j v found = elim (Bool-cases (beq k j)) [
    | inl same ↦ absurd (ground (arith, get-remove k j m))
    | inr other ↦ each j v (ground (arith, get-remove k j m))
  ]
