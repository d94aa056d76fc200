-- ===== src/Sort/Stable.antt =====
-- A stable sort by what stands under each key.
use mathlib.Core.List.{List, [], ◌∷◌, ◌++◌}
use conflict_free_oltp_v.Base.{
  Bool, true, false, Option, none, some, ◌≡◌, refl, sym, ap, ◌∙◌, Ord, beq, blt, filter, all, arith,
  Bool-cases, inl, inr, unwrap_or, eq_of_beq, beq_refl,
}
use conflict_free_oltp_v.BTree.{BTreeMap, get, insert, update_entry, empty}
use conflict_free_oltp_v.BTree.Entries.{get_entry, insert_entry}
use conflict_free_oltp_v.BTree.Laws.{get-update_entry, get-empty, map_ext}
use conflict_free_oltp_v.BTree.Every.{Every, Every-of_get}
use conflict_free_oltp_v.Sort.{sort_by, insert_sorted}

module _ {ℓ κ} {A : Type ℓ} {K : Type κ} ⦃o : Ord K⦄ (key : A → K) where
  -- The elements with one key, in their order.
  abbrev pub at_key : K → List A → List A
  at_key k l = filter (λ x. beq (key x) k) l

  -- The elements by their keys.
  groups : List A → BTreeMap K (List A)
  groups [] = empty
  groups (x ∷ l) = update_entry (key x) (λ g. x ∷ unwrap_or [] g) (groups l)

  abbrev pack : List A → Option (List A)
  pack [] = none
  pack (x ∷ l) = some (x ∷ l)

  abbrev is_nonempty : List A → Bool
  is_nonempty [] = false
  is_nonempty (x ∷ l) = true

  get-groups : (k : K) (l : List A) → get k (groups l) ≡ pack (at_key k l)
  unfolding groups
  get-groups k [] = get-empty {V = List A} k
  get-groups k (x ∷ l) = elim (Bool-cases (beq (key x) k)) [
    | inl same ↦ ground (
      arith,
      get-update_entry (key x) k (λ g. x ∷ unwrap_or [] g) (groups l),
      get-groups k l,
      eq_of_beq (key x) k,
      beq_refl k,
    )
    | inr other ↦
        ground
          (arith, get-update_entry (key x) k (λ g. x ∷ unwrap_or [] g) (groups l), get-groups k l)
  ]

  abbrev IsGroup : K → List A → Type 0
  IsGroup k g = (is_nonempty g ≡ true) × (all (λ x. beq (key x) k) g ≡ true)

  all-at_key : (k : K) (l : List A) → all (λ x. beq (key x) k) (at_key k l) ≡ true
  all-at_key k [] = refl
  all-at_key k (x ∷ l) = ground (arith, all-at_key k l)

  groups-IsGroup : (l : List A) → Every IsGroup (groups l).entries
  groups-IsGroup l = Every-of_get IsGroup (groups l) found
    where
      of_pack :
          (k : K) (m g : List A) → all (λ x. beq (key x) k) m ≡ true → pack m ≡ some g → IsGroup k g
      of_pack k [] g h e = absurd (cc)
      of_pack k (x ∷ m) g h e = ground arith

      found : (k : K) (g : List A) → get k (groups l) ≡ some g → IsGroup k g
      found k g e = of_pack k (at_key k l) g (all-at_key k l) (sym (get-groups k l) ∙ e)

  flatten : List (K × List A) → List A
  flatten [] = []
  flatten ((k, g) ∷ l) = g ++ flatten l

  insert_sorted-append :
      (k : K) (x : A) (g l : List A)
      → all (λ y. beq (key y) k) g ≡ true
      → blt k (key x) ≡ true
      → insert_sorted key x (g ++ l) ≡ g ++ insert_sorted key x l
  unfolding insert_sorted
  insert_sorted-append k x [] l h b = refl
  insert_sorted-append k x (y ∷ g) l h b =
      ground (arith, eq_of_beq (key y) k, insert_sorted-append k x g l)

  insert_sorted-flatten :
      (x : A) (l : List (K × List A))
      → Every IsGroup l
      → insert_sorted key x (flatten l)
        ≡ flatten (insert_entry (key x) (x ∷ unwrap_or [] (get_entry (key x) l)) l)
  unfolding insert_sorted flatten insert_entry get_entry
  insert_sorted-flatten x [] h = refl
  insert_sorted-flatten x ((k, []) ∷ l) h = absurd (cc)
  insert_sorted-flatten x ((k, y ∷ g) ∷ l) h = ground (
    arith,
    insert_sorted-append k x (y ∷ g) (flatten l) h.0.1,
    insert_sorted-flatten x l h.1,
    eq_of_beq (key y) k,
    o.cmp_swap k (key x),
  )

  sort_by-groups : (l : List A) → sort_by key l ≡ flatten (groups l).entries
  unfolding sort_by groups update_entry
  sort_by-groups [] = unfold flatten in refl
  sort_by-groups (x ∷ l) =
      ap (insert_sorted key x) (sort_by-groups l)
      ∙ unfold get insert in insert_sorted-flatten x (groups l).entries (groups-IsGroup l)

  -- Lists that have the same elements, in the same order, under each key sort to the same list.
  pub sort_by_stable :
      (l m : List A) → ((k : K) → at_key k l ≡ at_key k m) → sort_by key l ≡ sort_by key m
  sort_by_stable l m h =
      let same =
        map_ext (groups l) (groups m)
          (λ k. get-groups k l ∙ ap pack (h k) ∙ sym (get-groups k m)) in
      sort_by-groups l
      ∙ ap (λ (n : BTreeMap K (List A)). flatten n.entries) same
      ∙ sym (sort_by-groups m)
