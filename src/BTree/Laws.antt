-- ===== src/BTree/Laws.antt =====
-- What a client of an ordered map may use: each operation by its effect on `get`, and equality of
-- maps by `get`. The entries themselves are read through `any` only.
use mathlib.Core.HLevel.{is_prop→PathP}
use conflict_free_oltp_v.Base.{
  Bool, true, false, Option, none, some, List, [], ◌∷◌, ◌≡◌, refl, sym, ap, ◌∙◌, blt, last,
  last-map, map_option, Ord, if◌then◌else◌, beq, arith, any, Bool-cases, inl, inr, is_some, any-map,
  beq_refl, eq_of_beq, Bool_ext, Option-cases,
}
use conflict_free_oltp_v.BTree.Entries.{
  IsSorted, Above, get_entry, retain_entries, get-insert_entry, get-remove_entry, get_entry-Above,
  entries_ext, IsSorted-prop, Above-trans,
}
use conflict_free_oltp_v.BTree.{
  BTreeMap, empty, get, insert, remove, retain, update_entry, absorb_entries, absorb, values, keys,
}

module _ {ℓ κ} {K : Type ℓ} {V : Type κ} ⦃o : Ord K⦄ where
  pub get-empty : (k : K) → get {V = V} k empty ≡ none
  unfolding get get_entry
  get-empty k = refl

  pub get-insert :
      (k j : K) (v : V) (m : BTreeMap K V)
      → get j (insert k v m) ≡ (if beq k j then some v else get j m)
  unfolding get insert
  get-insert k j v m = get-insert_entry k j v m.entries m.sorted

  pub get-remove :
      (k j : K) (m : BTreeMap K V) → get j (remove k m) ≡ (if beq k j then none else get j m)
  unfolding get remove
  get-remove k j m = get-remove_entry k j m.entries m.sorted

  pub get-update_entry :
      (k j : K) (f : Option V → V) (m : BTreeMap K V)
      → get j (update_entry k f m) ≡ (if beq k j then some (f (get k m)) else get j m)
  unfolding update_entry
  get-update_entry k j f m = get-insert k j (f (get k m)) m

  -- Maps that answer alike are equal.
  pub map_ext : (m n : BTreeMap K V) → ((k : K) → get k m ≡ get k n) → m ≡ n
  unfolding get
  map_ext m n h =
      let p : m.entries ≡ n.entries = entries_ext m.entries n.entries m.sorted n.sorted h in
      λ i. record {
        entries = p i;
        sorted = is_prop→PathP (λ j. IsSorted (p j)) (λ j. IsSorted-prop (p j)) m.sorted n.sorted i;
      }

  retain_entries-Above :
      (p : K → V → Bool) (k : K) (l : List (K × V))
      → Above k l
      → get_entry k (retain_entries p l) ≡ none
  unfolding get_entry retain_entries
  retain_entries-Above p k [] a = refl
  retain_entries-Above p k ((j, w) ∷ l) a = ground (arith, retain_entries-Above p k l)

  get-retain_entries :
      (p : K → V → Bool) (k : K) (l : List (K × V))
      → IsSorted l
      → get_entry k (retain_entries p l)
        ≡ elim (get_entry k l) [ none ↦ none | some v ↦ if p k v then some v else none ]
  unfolding get_entry retain_entries
  get-retain_entries p k [] s = refl
  get-retain_entries p k ((j, w) ∷ l) s = ground (
    arith,
    o.eq_of_cmp k j,
    retain_entries-Above p k l,
    Above-trans k j l,
    get-retain_entries p k l s.1,
  )

  pub get-retain :
      (p : K → V → Bool) (k : K) (m : BTreeMap K V)
      → get k (retain p m)
        ≡ elim (get k m) [ none ↦ none | some v ↦ if p k v then some v else none ]
  unfolding get retain
  get-retain p k m = get-retain_entries p k m.entries m.sorted

  -- What `any` finds among the entries is what `get` finds at some key.
  pub get_of_any_entries :
      (p : K × V → Bool) (l : List (K × V))
      → IsSorted l
      → any p l ≡ true
      → (k : K) × (v : V) × (get_entry k l ≡ some v) × (p (k, v) ≡ true)
  unfolding get_entry
  get_of_any_entries p [] s h = absurd (cc)
  get_of_any_entries p ((j, w) ∷ l) s h = elim (Bool-cases (p (j, w))) [
    | inl here ↦ (j, w, ground (arith, o.cmp_refl j), here)
    | inr there ↦
        let (k, v, found, holds) = get_of_any_entries p l s.1 (rw there at h) in
        (k, v, above k v found, holds)
  ]
    where
      above : (k : K) (v : V) → get_entry k l ≡ some v → get_entry k ((j, w) ∷ l) ≡ some v
      above k v found = ground (arith, get_entry-Above k l, Above-trans k j l, o.eq_of_cmp k j, s.0)

  pub any_entries_of_get :
      (p : K × V → Bool) (k : K) (v : V) (l : List (K × V))
      → get_entry k l ≡ some v
      → p (k, v) ≡ true
      → any p l ≡ true
  unfolding get_entry
  any_entries_of_get p k v [] g h = absurd (cc)
  any_entries_of_get p k v ((j, w) ∷ l) g h =
      ground (arith, o.eq_of_cmp k j, any_entries_of_get p k v l)

  pub get_of_any :
      (p : K × V → Bool) (m : BTreeMap K V)
      → any p m.entries ≡ true
      → (k : K) × (v : V) × (get k m ≡ some v) × (p (k, v) ≡ true)
  unfolding get
  get_of_any p m h = get_of_any_entries p m.entries m.sorted h

  pub any_of_get :
      (p : K × V → Bool) (k : K) (v : V) (m : BTreeMap K V)
      → get k m ≡ some v
      → p (k, v) ≡ true
      → any p m.entries ≡ true
  unfolding get
  any_of_get p k v m g h = any_entries_of_get p k v m.entries g h

module _ {ℓ κ} {K : Type ℓ} {V : Type κ} ⦃o : Ord K⦄ where
  last_entry_of_top :
      (k : K) (v : V) (l : List (K × V))
      → IsSorted l
      → get_entry k l ≡ some v
      → ((j : K) (w : V) → get_entry j l ≡ some w → blt k j ≡ false)
      → last l ≡ some (k, v)
  unfolding get_entry
  last_entry_of_top k v [] s g top = absurd (cc)
  last_entry_of_top k v ((j, w) ∷ []) s g top = ground (arith, o.eq_of_cmp k j)
  last_entry_of_top k v ((j, w) ∷ (i, u) ∷ l) s g top =
      last_entry_of_top k v ((i, u) ∷ l) s.1 (below g) (λ h x at. top h x (above h x at))
    where
      above :
          (h : K) (x : V)
          → get_entry h ((i, u) ∷ l) ≡ some x
          → get_entry h ((j, w) ∷ (i, u) ∷ l) ≡ some x
      above h x found = ground (
        arith,
        get_entry-Above h ((i, u) ∷ l),
        Above-trans h j ((i, u) ∷ l),
        o.eq_of_cmp h j,
        s.0,
      )

      below : get_entry k ((j, w) ∷ (i, u) ∷ l) ≡ some v → get_entry k ((i, u) ∷ l) ≡ some v
      below g =
          ground (arith, o.eq_of_cmp k j, s.0.0, top i u (above i u (ground (arith, o.cmp_refl i))))

  -- The last entry is the one with the greatest key.
  pub last_of_top :
      (k : K) (v : V) (m : BTreeMap K V)
      → get k m ≡ some v
      → ((j : K) (w : V) → get j m ≡ some w → blt k j ≡ false)
      → last (values m) ≡ some v
  unfolding get
  last_of_top k v m g top =
      last-map (λ (z : K × V). z.1) m.entries
      ∙ ap (map_option (λ (z : K × V). z.1)) (last_entry_of_top k v m.entries m.sorted g top)

-- The keys are those at which `get` answers.
pub any-keys {ℓ κ} :
    {K : Type ℓ} {V : Type κ} ⦃o : Ord K⦄ (k : K) (m : BTreeMap K V)
    → any (λ c. beq c k) (keys m) ≡ is_some (get k m)
any-keys {V} k m = Bool_ext (any (λ c. beq c k) (keys m)) (is_some (get k m)) there back
  where
    there : any (λ c. beq c k) (keys m) ≡ true → is_some (get k m) ≡ true
    there h =
        let (j, v, at, holds) =
          get_of_any (λ e. beq e.0 k) m (sym (any-map (λ c. beq c k) (λ e. e.0) m.entries) ∙ h) in
        ground (arith, eq_of_beq j k holds)

    back : is_some (get k m) ≡ true → any (λ c. beq c k) (keys m) ≡ true
    back h = elim (Option-cases (get k m)) [
      | inl missing ↦ absurd (ground arith)
      | inr (v, at) ↦
          any-map (λ c. beq c k) (λ e. e.0) m.entries
          ∙ any_of_get (λ e. beq e.0 k) k v m at (beq_refl k)
    ]

-- Options with the same value, or none, are equal.
pub eq_of_some_iff {ℓ} :
    {A : Type ℓ} (x y : Option A)
    → ((a : A) → x ≡ some a → y ≡ some a)
    → ((a : A) → y ≡ some a → x ≡ some a)
    → x ≡ y
eq_of_some_iff none none f g = refl
eq_of_some_iff none (some b) f g = g b refl
eq_of_some_iff (some a) y f g = sym (f a refl)

-- A loop over another map changes each key that the other map has, once.
module _ {ℓ κ μ} {K : Type ℓ} {V : Type κ} {W : Type μ} ⦃o : Ord K⦄ (f : K → W → Option V → V) where
  get-absorb_entries :
      (k : K) (m : BTreeMap K V) (l : List (K × W))
      → IsSorted l
      → get k (absorb_entries f m l)
        ≡ elim (get_entry k l) [ none ↦ get k m | some w ↦ some (f k w (get k m)) ]
  unfolding absorb_entries get_entry
  get-absorb_entries k m [] s = refl
  get-absorb_entries k m ((j, w) ∷ l) s = ground (
    arith,
    get-absorb_entries k (update_entry j (f j w) m) l s.1,
    get-update_entry j k (f j w) m,
    o.eq_of_cmp k j,
    o.eq_of_cmp j k,
    o.cmp_swap k j,
    get_entry-Above k l,
    Above-trans k j l,
    s.0,
  )

  pub get-absorb :
      (k : K) (m : BTreeMap K V) (n : BTreeMap K W)
      → get k (absorb f m n) ≡ elim (get k n) [ none ↦ get k m | some w ↦ some (f k w (get k m)) ]
  unfolding absorb get
  get-absorb k m n = get-absorb_entries k m n.entries n.sorted
