-- ===== src/Constraints/Uniqueness/Owner.antt =====
-- `canonical_owner` of src/constraints/uniqueness_protocol.rs, for a value with several claims.
use conflict_free_oltp_v.Base.{
  ℕ, zero, suc, ◌+◌, ◌-◌, ◌≤◌, Bool, true, false, not, some, List, [], ◌∷◌, all, any, find,
  get_elem?, ◌==◌, ◌≡◌, refl, sym, ap, ◌∙◌, arith, eq_of_beq, not_lt_not_eq, blt, map_option,
  if◌then◌else◌, Bytes, Str, beq_refl, pair_ord, list_ord, nat_ord, Bool-cases, inl, inr,
}
use conflict_free_oltp_v.BTree.{get}
use conflict_free_oltp_v.BTree.Laws.{get-insert}
use conflict_free_oltp_v.Crdt.Clocks.{HlcTimestamp, stamp_ord}
use conflict_free_oltp_v.Constraints.Uniqueness.{
  Reservation, UniqueIndex, claim_key, beats, resolve_list, resolve_conflicts_for_value, marked_won,
  marked_lost, is_open, canonical_owner,
}
use conflict_free_oltp_v.Constraints.Uniqueness.Election.{IsGreatest, resolve_list-elects}

-- The first open reservation of a list where one position is won and the others are lost.
find-elected :
    (k : ℕ) (w v : Reservation) (n : ℕ) (l m : List Reservation)
    → n ≤ k
    → get_elem? l (k - n) ≡ some v
    → ((j : ℕ)
        → get_elem? m j
          ≡ map_option
              (λ x. if (n + j) == k then marked_won x else marked_lost w x)
              (get_elem? l j))
    → find is_open m ≡ some (marked_won v)
find-elected k w v n [] m le at h = absurd (cc)
find-elected k w v n (r ∷ l) [] le at h = absurd (let e = h 0 in cc)
find-elected k w v n (r ∷ l) (s ∷ m) le at h = elim (Bool-cases ((n + 0) == k)) [
  | inl here ↦
      let e : k - n ≡ 0 = ground arith in
      let found : some r ≡ some v = sym (ap (get_elem? (r ∷ l)) e) ∙ at in
      let first = h 0 in ground (arith, found, first)
  | inr later ↦
      let e : k - n ≡ suc (k - (n + 1)) = ground arith in
      let found : get_elem? l (k - (n + 1)) ≡ some v = sym (ap (get_elem? (r ∷ l)) e) ∙ at in
      let first = h 0 in
      let rest = find-elected k w v (n + 1) l m (ground arith) found (λ j.
        h (suc j)
        ∙ ap
            (λ i.
              map_option (λ x. if i == k then marked_won x else marked_lost w x) (get_elem? l j))
            (add_suc n j)) in
      ground (arith, first, rest)
]
  where
    add_suc : (n j : ℕ) → n + suc j ≡ (n + 1) + j
    add_suc n j = omega arith

-- Once several claims are resolved, the first open one is the greatest.
resolve_list-find :
    (r s : Reservation) (l : List Reservation)
    → (k : ℕ) × (w : Reservation) × (get_elem? (r ∷ s ∷ l) k ≡ some w)
      × IsGreatest w (r ∷ s ∷ l)
      × (find is_open (resolve_list (r ∷ s ∷ l)).0 ≡ some (marked_won w))
resolve_list-find r s l =
    let (k, w, at, greatest, marks) = resolve_list-elects r s l in
    (
      k,
      w,
      at,
      greatest,
      find-elected k w w 0 (r ∷ s ∷ l) (resolve_list (r ∷ s ∷ l)).0 (omega arith)
          (ap (get_elem? (r ∷ s ∷ l)) (sub_zero k) ∙ at)
          (λ j.
            marks j
            ∙ ap
                (λ i.
                  map_option (λ x. if i == k then marked_won x else marked_lost w x)
                    (get_elem? (r ∷ s ∷ l) j))
                (zero_add j)),
    )
  where
    sub_zero : (k : ℕ) → k - 0 ≡ k
    sub_zero k = omega arith

    zero_add : (j : ℕ) → j ≡ 0 + j
    zero_add j = omega arith

-- A value with two or more claims belongs, once resolved, to the row of the greatest claim.
pub canonical_owner-resolve :
    (value : Bytes) (idx : UniqueIndex) (r s : Reservation) (l : List Reservation)
    → get value idx.reservations ≡ some (r ∷ s ∷ l)
    → (k : ℕ) × (w : Reservation) × (get_elem? (r ∷ s ∷ l) k ≡ some w)
      × IsGreatest w (r ∷ s ∷ l)
      × (canonical_owner value (resolve_conflicts_for_value value idx) ≡ some w.row_id)
unfolding canonical_owner resolve_conflicts_for_value
canonical_owner-resolve value idx r s l h =
    let (k, w, at, greatest, found) = resolve_list-find r s l in
    let stored = get-insert value value (resolve_list (r ∷ s ∷ l)).0 idx.reservations in
    (k, w, at, greatest, ground (arith, stored, found, beq_refl value))

-- The lists have claims with the same stamps and rows, in whatever order, number and states.
abbrev pub SameClaims : List Reservation → List Reservation → Type 0
SameClaims l m =
    (p : HlcTimestamp × Str → Bool) → any (λ r. p (claim_key r)) l ≡ any (λ r. p (claim_key r)) m

any_of_elem :
    (p : Reservation → Bool) (l : List Reservation) (k : ℕ) (w : Reservation)
    → get_elem? l k ≡ some w
    → p w ≡ true
    → any p l ≡ true
any_of_elem p [] k w at h = absurd (cc)
any_of_elem p (r ∷ l) zero w at h = ground arith
any_of_elem p (r ∷ l) (suc k) w at h = ground (arith, any_of_elem p l k w)

all-not-any :
    (p : Reservation → Bool) (l : List Reservation)
    → all (λ r. not (p r)) l ≡ true
    → any p l ≡ false
all-not-any p [] h = refl
all-not-any p (r ∷ l) h = ground (arith, all-not-any p l)

-- A claim of one list does not beat the greatest of the other.
not_beats_greatest :
    (l m : List Reservation) (k : ℕ) (w v : Reservation)
    → SameClaims l m
    → get_elem? l k ≡ some w
    → IsGreatest v m
    → beats w v ≡ false
not_beats_greatest l m k w v same at greatest = elim (Bool-cases (beats w v)) [
  | inl yes_beats ↦ absurd (
      ground (
        arith,
        any_of_elem (λ r. beats r v) l k w at yes_beats,
        same (blt (claim_key v)),
        all-not-any (λ r. beats r v) m greatest,
      ))
  | inr no_beats ↦ no_beats
]

-- Two indexes that hold two or more claims each to a value, with the same stamps and rows, elect
-- the same owner for it: neither the order of the claims, nor their number, nor the states of
-- earlier elections matter.
pub canonical_owner-order :
    (value : Bytes) (idx jdx : UniqueIndex) (r s : Reservation) (l : List Reservation)
    (r' s' : Reservation) (l' : List Reservation)
    → get value idx.reservations ≡ some (r ∷ s ∷ l)
    → get value jdx.reservations ≡ some (r' ∷ s' ∷ l')
    → SameClaims (r ∷ s ∷ l) (r' ∷ s' ∷ l')
    → canonical_owner value (resolve_conflicts_for_value value idx)
      ≡ canonical_owner value (resolve_conflicts_for_value value jdx)
canonical_owner-order value idx jdx r s l r' s' l' g g' same =
    let (k, w, at, greatest, owner) = canonical_owner-resolve value idx r s l g in
    let (k', w', at', greatest', owner') = canonical_owner-resolve value jdx r' s' l' g' in
    let under = not_beats_greatest (r ∷ s ∷ l) (r' ∷ s' ∷ l') k w w' same at greatest' in
    let over =
      not_beats_greatest (r' ∷ s' ∷ l') (r ∷ s ∷ l) k' w' w (λ p. sym (same p)) at' greatest in
    let keys : claim_key w ≡ claim_key w' =
      eq_of_beq (claim_key w) (claim_key w')
        (ground (arith, not_lt_not_eq (claim_key w) (claim_key w'))) in
    owner ∙ ap (λ z. some z.1) keys ∙ sym owner'
