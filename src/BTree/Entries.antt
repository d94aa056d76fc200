-- ===== src/BTree/Entries.antt =====
-- The entries of an ordered map as a list sorted by key.
use mathlib.Core.HLevel.{×_prop}
use conflict_free_oltp_v.Base.{
  Bool, Option, none, some, List, [], ◌∷◌, ◌≡◌, refl, sym, subst, lt, eq, gt, Ord, ◌≺◌,
  if◌then◌else◌, beq, arith,
}

module _ {ℓ κ} {K : Type ℓ} {V : Type κ} ⦃o : Ord K⦄ where
  -- Every key of the list is above `k`.
  abbrev pub Above : K → List (K × V) → Type 0
  Above k [] = Unit {0}
  Above k ((j, w) ∷ m) = (k ≺ j) × Above k m

  abbrev pub IsSorted : List (K × V) → Type 0
  IsSorted [] = Unit {0}
  IsSorted ((j, w) ∷ m) = Above j m × IsSorted m

  unfoldable pub get_entry : K → List (K × V) → Option V
  get_entry k [] = none
  get_entry k ((j, w) ∷ m) = elim (o.cmp k j) [ lt ↦ none | eq ↦ some w | gt ↦ get_entry k m ]

  unfoldable pub insert_entry : K → V → List (K × V) → List (K × V)
  insert_entry k v [] = (k, v) ∷ []
  insert_entry k v ((j, w) ∷ m) = elim (o.cmp k j) [
    | lt ↦ (k, v) ∷ (j, w) ∷ m
    | eq ↦ (k, v) ∷ m
    | gt ↦ (j, w) ∷ insert_entry k v m
  ]

  unfoldable pub remove_entry : K → List (K × V) → List (K × V)
  remove_entry k [] = []
  remove_entry k ((j, w) ∷ m) = elim (o.cmp k j) [
    | lt ↦ (j, w) ∷ m
    | eq ↦ m
    | gt ↦ (j, w) ∷ remove_entry k m
  ]

  unfoldable pub retain_entries : (K → V → Bool) → List (K × V) → List (K × V)
  retain_entries p [] = []
  retain_entries p ((j, w) ∷ m) =
      let rest = retain_entries p m in if p j w then (j, w) ∷ rest else rest

  pub Above-trans : (j k : K) (m : List (K × V)) → j ≺ k → Above k m → Above j m
  Above-trans j k [] h a = tt
  Above-trans j k ((i, w) ∷ m) h a = (o.lt_trans j k i h a.0, Above-trans j k m h a.1)

  Above-insert_entry :
      (j k : K) (v : V) (m : List (K × V)) → j ≺ k → Above j m → Above j (insert_entry k v m)
  unfolding insert_entry
  Above-insert_entry j k v [] h a = (h, tt)
  Above-insert_entry j k v ((i, w) ∷ m) h a = ground (arith, Above-insert_entry j k v m)

  pub insert_entry-IsSorted :
      (k : K) (v : V) (m : List (K × V)) → IsSorted m → IsSorted (insert_entry k v m)
  unfolding insert_entry
  insert_entry-IsSorted k v [] s = (tt, tt)
  insert_entry-IsSorted k v ((j, w) ∷ m) s = ground (
    arith,
    insert_entry-IsSorted k v m,
    Above-insert_entry j k v m,
    Above-trans k j m,
    o.cmp_swap k j,
    o.eq_of_cmp k j,
  )

  Above-remove_entry : (j k : K) (m : List (K × V)) → Above j m → Above j (remove_entry k m)
  unfolding remove_entry
  Above-remove_entry j k [] a = tt
  Above-remove_entry j k ((i, w) ∷ m) a = ground (arith, Above-remove_entry j k m)

  pub remove_entry-IsSorted : (k : K) (m : List (K × V)) → IsSorted m → IsSorted (remove_entry k m)
  unfolding remove_entry
  remove_entry-IsSorted k [] s = tt
  remove_entry-IsSorted k ((j, w) ∷ m) s =
      ground (arith, remove_entry-IsSorted k m, Above-remove_entry j k m)

  Above-retain_entries :
      (j : K) (p : K → V → Bool) (m : List (K × V)) → Above j m → Above j (retain_entries p m)
  unfolding retain_entries
  Above-retain_entries j p [] a = tt
  Above-retain_entries j p ((i, w) ∷ m) a = ground (arith, Above-retain_entries j p m)

  pub retain_entries-IsSorted :
      (p : K → V → Bool) (m : List (K × V)) → IsSorted m → IsSorted (retain_entries p m)
  unfolding retain_entries
  retain_entries-IsSorted p [] s = tt
  retain_entries-IsSorted p ((j, w) ∷ m) s =
      ground (arith, retain_entries-IsSorted p m, Above-retain_entries j p m)

  -- A key below all others is not found.
  pub get_entry-Above : (k : K) (m : List (K × V)) → Above k m → get_entry k m ≡ none
  unfolding get_entry
  get_entry-Above k [] a = refl
  get_entry-Above k ((j, w) ∷ m) a = ground arith

  -- What is found behind the first entry is found in the whole list.
  pub get_entry_behind :
      (j k : K) (w v : V) (m : List (K × V))
      → Above j m
      → get_entry k m ≡ some v
      → get_entry k ((j, w) ∷ m) ≡ some v
  unfolding get_entry
  get_entry_behind j k w v m a h = ground (
    arith,
    o.eq_of_cmp k j,
    get_entry-Above k m,
    Above-trans k j m,
    λ (e : k ≡ j). get_entry-Above k m (subst (λ i. Above i m) (sym e) a),
  )

  pub get-insert_entry :
      (k j : K) (v : V) (m : List (K × V))
      → IsSorted m
      → get_entry j (insert_entry k v m) ≡ (if beq k j then some v else get_entry j m)
  unfolding get_entry insert_entry
  get-insert_entry k j v [] s = ground (arith, o.cmp_swap k j)
  get-insert_entry k j v ((i, w) ∷ m) s = ground (
    arith,
    o.cmp_swap k j,
    o.eq_of_cmp k j,
    o.eq_of_cmp k i,
    o.cmp_swap i j,
    o.cmp_swap k i,
    o.lt_trans j k i,
    o.lt_trans k i j,
    get-insert_entry k j v m s.1,
  )

  pub get-remove_entry :
      (k j : K) (m : List (K × V))
      → IsSorted m
      → get_entry j (remove_entry k m) ≡ (if beq k j then none else get_entry j m)
  unfolding get_entry remove_entry
  get-remove_entry k j [] s = ground arith
  get-remove_entry k j ((i, w) ∷ m) s = ground (
    arith,
    o.cmp_swap k j,
    o.eq_of_cmp k j,
    o.eq_of_cmp k i,
    o.cmp_swap i j,
    o.cmp_swap k i,
    o.lt_trans j k i,
    o.lt_trans j i k,
    o.lt_trans k i j,
    get_entry-Above j m,
    Above-trans j i m,
    get-remove_entry k j m s.1,
  )

  pub IsSorted-prop : (m : List (K × V)) → IsProp (IsSorted m)
  IsSorted-prop [] = hlevel
  IsSorted-prop ((j, w) ∷ m) = ×_prop (Above-prop j m) (IsSorted-prop m)
    where
      Above-prop : (k : K) (l : List (K × V)) → IsProp (Above k l)
      Above-prop k [] = hlevel
      Above-prop k ((i, u) ∷ l) = ×_prop (hlevel) (Above-prop k l)

  -- Sorted entries are determined by what they answer.
  pub entries_ext :
      (m n : List (K × V))
      → IsSorted m
      → IsSorted n
      → ((k : K) → get_entry k m ≡ get_entry k n)
      → m ≡ n
  unfolding get_entry
  entries_ext [] [] s t h = refl
  entries_ext [] ((j, w) ∷ n) s t h = ground (arith, h j, o.cmp_refl j)
  entries_ext ((i, v) ∷ m) [] s t h = ground (arith, h i, o.cmp_refl i)
  entries_ext ((i, v) ∷ m) ((j, w) ∷ n) s t h = ground (
    arith,
    h i,
    h j,
    o.cmp_refl i,
    o.cmp_refl j,
    o.cmp_swap i j,
    o.eq_of_cmp i j,
    λ (e : i ≡ j). entries_ext m n s.1 t.1 (λ k.
        tails k (get_entry-Above k m) (get_entry-Above k n) (Above-trans k i m) (Above-trans k j n)
          e (h k)),
  )
    where
      tails :
          (k : K)
          → (Above k m → get_entry k m ≡ none)
          → (Above k n → get_entry k n ≡ none)
          → (k ≺ i → Above i m → Above k m)
          → (k ≺ j → Above j n → Above k n)
          → i ≡ j
          → get_entry k ((i, v) ∷ m) ≡ get_entry k ((j, w) ∷ n)
          → get_entry k m ≡ get_entry k n
      tails k a b c d e g = ground (arith, o.eq_of_cmp k i, o.eq_of_cmp k j, s.0, t.0)

-- Values changed in place, under their keys.
module _ {ℓ κ μ} {K : Type ℓ} {V : Type κ} {W : Type μ} ⦃o : Ord K⦄ (f : K → V → W) where
  unfoldable pub map_entries : List (K × V) → List (K × W)
  map_entries [] = []
  map_entries ((k, v) ∷ m) = (k, f k v) ∷ map_entries m

  map_entries-Above : (k : K) (m : List (K × V)) → Above k m → Above k (map_entries m)
  unfolding map_entries
  map_entries-Above k [] a = tt
  map_entries-Above k ((j, v) ∷ m) a = (a.0, map_entries-Above k m a.1)

  pub map_entries-IsSorted : (m : List (K × V)) → IsSorted m → IsSorted (map_entries m)
  unfolding map_entries
  map_entries-IsSorted [] s = tt
  map_entries-IsSorted ((j, v) ∷ m) s = (map_entries-Above j m s.0, map_entries-IsSorted m s.1)
