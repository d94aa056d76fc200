-- ===== src/BTree/Every.antt =====
-- Properties of every entry of a map.
use conflict_free_oltp_v.Base.{some, List, [], ◌∷◌, ◌≡◌, Ord, arith}
use conflict_free_oltp_v.BTree.{BTreeMap, get, insert}
use conflict_free_oltp_v.BTree.Entries.{
  IsSorted, get_entry, insert_entry, get_entry-Above, Above-trans,
}

-- A property of every entry of the list.
abbrev pub Every {ℓ κ μ} : {K : Type ℓ} {V : Type κ} → (K → V → Type μ) → List (K × V) → Type μ
Every P [] = Unit
Every P ((k, v) ∷ l) = P k v × Every P l

module _ {ℓ κ μ} {K : Type ℓ} {V : Type κ} ⦃o : Ord K⦄ (P : K → V → Type μ) where
  Every-entry_of_get :
      (l : List (K × V))
      → IsSorted l
      → ((k : K) (v : V) → get_entry k l ≡ some v → P k v)
      → Every P l
  unfolding get_entry
  Every-entry_of_get [] s h = tt
  Every-entry_of_get ((j, w) ∷ l) s h = (
    h j w (ground (arith, o.cmp_refl j)),
    Every-entry_of_get l s.1 (λ k v g. h k v (above k v g)),
  )
    where
      above : (k : K) (v : V) → get_entry k l ≡ some v → get_entry k ((j, w) ∷ l) ≡ some v
      above k v found = ground (arith, get_entry-Above k l, Above-trans k j l, o.eq_of_cmp k j, s.0)

  -- What holds of each answer of `get` holds of each entry.
  pub Every-of_get :
      (m : BTreeMap K V) → ((k : K) (v : V) → get k m ≡ some v → P k v) → Every P m.entries
  unfolding get
  Every-of_get m h = Every-entry_of_get m.entries m.sorted h

-- An insertion keeps what holds of every entry, and `get` finds it.
module _ {ℓ κ μ} {K : Type ℓ} {V : Type κ} ⦃o : Ord K⦄ (P : K → V → Type μ) where
  Every-entry-insert_entry :
      (k : K) (v : V) (l : List (K × V)) → P k v → Every P l → Every P (insert_entry k v l)
  unfolding insert_entry
  Every-entry-insert_entry k v [] h e = (h, tt)
  Every-entry-insert_entry k v ((j, w) ∷ l) h e =
      ground (arith, Every-entry-insert_entry k v l h e.1)

  pub Every-insert :
      (k : K) (v : V) (m : BTreeMap K V)
      → P k v
      → Every P m.entries
      → Every P (insert k v m).entries
  unfolding insert
  Every-insert k v m h e = Every-entry-insert_entry k v m.entries h e

  get_entry_of_every :
      (k : K) (v : V) (l : List (K × V)) → Every P l → get_entry k l ≡ some v → P k v
  unfolding get_entry
  get_entry_of_every k v [] e h = absurd (cc)
  get_entry_of_every k v ((j, w) ∷ l) e h =
      ground (arith, o.eq_of_cmp k j, get_entry_of_every k v l e.1)

  pub get_of_every :
      (k : K) (v : V) (m : BTreeMap K V) → Every P m.entries → get k m ≡ some v → P k v
  unfolding get
  get_of_every k v m e h = get_entry_of_every k v m.entries e h
