-- ===== src/BTree.antt =====
-- The standard library's `BTreeMap` and `BTreeSet`, which the program's whole state is made of:
-- entries in the order of their keys, one for each key. A map carries the proof that its entries
-- are sorted, so that two maps with the same entries are equal, as `==` compares them.
pub mod Entries
pub mod Laws
pub mod Sets
pub mod Join
pub mod Each
pub mod Weight
pub mod Every
use conflict_free_oltp_v.Base.{Bool, Option, none, List, [], ◌∷◌, map, is_some, Ord, list_ord}
use conflict_free_oltp_v.BTree.Entries.{
  IsSorted, get_entry, insert_entry, remove_entry, retain_entries, insert_entry-IsSorted,
  remove_entry-IsSorted, retain_entries-IsSorted, map_entries, map_entries-IsSorted,
}

pub record BTreeMap {ℓ κ} (K : Type ℓ) (V : Type κ) ⦃o : Ord K⦄ : Type (ℓ ⊔ κ) where
  pub entries : List (K × V)
  pub sorted : IsSorted entries

module _ {ℓ κ} {K : Type ℓ} {V : Type κ} ⦃o : Ord K⦄ where
  abbrev pub empty : BTreeMap K V
  empty = record { entries = []; sorted = tt }

  unfoldable pub get : K → BTreeMap K V → Option V
  unfolding get_entry
  get k m = get_entry k m.entries

  unfoldable pub insert : K → V → BTreeMap K V → BTreeMap K V
  unfolding insert_entry
  insert k v m = record {
    entries = insert_entry k v m.entries;
    sorted = insert_entry-IsSorted k v m.entries m.sorted;
  }

  unfoldable pub remove : K → BTreeMap K V → BTreeMap K V
  unfolding remove_entry
  remove k m = record {
    entries = remove_entry k m.entries;
    sorted = remove_entry-IsSorted k m.entries m.sorted;
  }

  unfoldable pub retain : (K → V → Bool) → BTreeMap K V → BTreeMap K V
  unfolding retain_entries
  retain p m = record {
    entries = retain_entries p m.entries;
    sorted = retain_entries-IsSorted p m.entries m.sorted;
  }

  unfoldable pub contains_key : K → BTreeMap K V → Bool
  unfolding get
  contains_key k m = is_some (get k m)

  -- `m.entry(k)`, changed by `f`, which is given what stands there, if anything does.
  unfoldable pub update_entry : K → (Option V → V) → BTreeMap K V → BTreeMap K V
  unfolding get insert
  update_entry k f m = insert k (f (get k m)) m

  abbrev pub keys : BTreeMap K V → List K
  keys m = map (λ e. e.0) m.entries

  abbrev pub values : BTreeMap K V → List V
  values m = map (λ e. e.1) m.entries

-- `for (k, w) in &other { self.entry(k)… }`: each entry of the other map changes its own key.
module _ {ℓ κ μ} {K : Type ℓ} {V : Type κ} {W : Type μ} ⦃o : Ord K⦄ (f : K → W → Option V → V) where
  unfoldable pub absorb_entries : BTreeMap K V → List (K × W) → BTreeMap K V
  unfolding update_entry
  absorb_entries m [] = m
  absorb_entries m ((k, w) ∷ l) = absorb_entries (update_entry k (f k w) m) l

  unfoldable pub absorb : BTreeMap K V → BTreeMap K W → BTreeMap K V
  unfolding absorb_entries
  absorb m n = absorb_entries m n.entries

-- `for v in self.values_mut() { .. }`
unfoldable pub map_values {ℓ κ μ} :
    {K : Type ℓ} {V : Type κ} {W : Type μ} ⦃o : Ord K⦄ → (K → V → W) → BTreeMap K V → BTreeMap K W
unfolding map_entries
map_values f m = record {
  entries = map_entries f m.entries;
  sorted = map_entries-IsSorted f m.entries m.sorted;
}

-- A set is a map to the unit type.
abbrev pub BTreeSet {ℓ} : (K : Type ℓ) ⦃o : Ord K⦄ → Type ℓ
BTreeSet K = BTreeMap K (Unit {0})

module _ {ℓ} {K : Type ℓ} ⦃o : Ord K⦄ where
  abbrev pub add : K → BTreeSet K → BTreeSet K
  add k s = insert k tt s

  abbrev pub contains : K → BTreeSet K → Bool
  contains k s = contains_key k s

  -- `for t in &other { self.insert(t) }`
  abbrev pub union : BTreeSet K → BTreeSet K → BTreeSet K
  union s t = absorb (λ k w before. tt) s t

-- What a run by `refl` unfolds of the maps.
unfoldable pub computes : Unit {0}
unfolding list_ord get insert remove retain contains_key update_entry absorb map_values
computes = tt
