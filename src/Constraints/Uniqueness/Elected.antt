-- ===== src/Constraints/Uniqueness/Elected.antt =====
-- The open claims to one value in an index of src/constraints/uniqueness_protocol.rs.
use conflict_free_oltp_v.Base.{
  ℕ, zero, suc, ◌+◌, ◌-◌, ◌<◌, true, false, ◌&&◌, some, List, [], ◌∷◌, ◌++◌, any, filter, length,
  get_elem?, ltb, leb, ◌≡◌, refl, ◌∙◌, arith, beq, beq_refl, Bool-cases, Option-cases, inl, inr,
  if◌then◌else◌, unwrap_or, Bytes, list_ord, nat_ord,
}
use conflict_free_oltp_v.BTree.{get, insert}
use conflict_free_oltp_v.BTree.Laws.{get-insert, get-empty}
use conflict_free_oltp_v.Constraints.Uniqueness.{
  Reservation, UniqueIndex, new_index, winner_from, mark, resolve_list, resolve_conflicts_for_value,
  reserve, same_claim, is_open,
}
use conflict_free_oltp_v.Constraints.Uniqueness.Election.{winner_from-Wins}

-- How many claims of the list are open.
abbrev pub count_open : List Reservation → ℕ
count_open l = length (filter is_open l)

-- Every value that is claimed at all has one open claim.
abbrev pub IsElected : UniqueIndex → Type 0
IsElected idx =
    (value : Bytes) (l : List Reservation) → get value idx.reservations ≡ some l → count_open l ≡ 1

count_open-mark :
    (k : ℕ) (w : Reservation) (n : ℕ) (l : List Reservation)
    → count_open (mark k w n l) ≡ (if leb n k && ltb k (n + length l) then 1 else 0)
unfolding mark
count_open-mark k w n [] = ground arith
count_open-mark k w n (r ∷ l) = ground (arith, count_open-mark k w (n + 1) l)

get_elem?-lt :
    (l : List Reservation) (i : ℕ) (w : Reservation) → get_elem? l i ≡ some w → i < length l
get_elem?-lt [] i w h = absurd (cc)
get_elem?-lt (r ∷ l) zero w h = omega arith
get_elem?-lt (r ∷ l) (suc i) w h = omega (arith, get_elem?-lt l i w h)

resolve_list-open :
    (r s : Reservation) (l : List Reservation) → count_open (resolve_list (r ∷ s ∷ l)).0 ≡ 1
unfolding resolve_list
resolve_list-open r s l =
    let z = winner_from 0 r 1 (s ∷ l) in
    let (ahead, greatest, place) = winner_from-Wins 0 r 1 (s ∷ l) in
    count_open-mark z.0 z.1 0 (r ∷ s ∷ l)
    ∙ within z.0 (elim place [
      | inl here ↦ omega (arith, here.0)
      | inr later ↦ omega (arith, later.0, get_elem?-lt (s ∷ l) (z.0 - 1) z.1 later.1)
    ])
  where
    within :
        (k : ℕ)
        → k < suc (suc (length l))
        → ◌≡◌ {A = ℕ} (if leb 0 k && ltb k (0 + suc (suc (length l))) then 1 else 0) 1
    within k h = ground arith

-- A list that grows by an open claim, once resolved, has one open claim.
resolve_list-snoc :
    (l : List Reservation) (r : Reservation)
    → is_open r ≡ true
    → count_open (resolve_list (l ++ r ∷ [])).0 ≡ 1
resolve_list-snoc [] r h = unfold resolve_list in ground arith
resolve_list-snoc (x ∷ []) r h = resolve_list-open x r []
resolve_list-snoc (x ∷ y ∷ l) r h = resolve_list-open x y (l ++ r ∷ [])

resolve_list-short : (l : List Reservation) → ltb 1 (length l) ≡ false → (resolve_list l).0 ≡ l
unfolding resolve_list
resolve_list-short [] h = refl
resolve_list-short (r ∷ []) h = refl
resolve_list-short (r ∷ s ∷ l) h = absurd (ground arith)

abbrev claims_of : Reservation → UniqueIndex → List Reservation
claims_of r idx = unwrap_or [] (get r.value idx.reservations)

-- A claim that is there already changes nothing.
get-reserve_again :
    (r : Reservation) (idx : UniqueIndex) (v : Bytes)
    → any (λ s. same_claim s r) (claims_of r idx) ≡ true
    → get v (reserve r idx).reservations
      ≡ (if beq r.value v then some (claims_of r idx) else get v idx.reservations)
unfolding reserve
get-reserve_again r idx v again =
    ground (arith, get-insert r.value v (claims_of r idx) idx.reservations)

get-reserve_new :
    (r : Reservation) (idx : UniqueIndex) (v : Bytes)
    → any (λ s. same_claim s r) (claims_of r idx) ≡ false
    → get v (reserve r idx).reservations ≡ (
        if beq r.value v
        then some (resolve_list (claims_of r idx ++ r ∷ [])).0
        else get v idx.reservations)
unfolding reserve resolve_conflicts_for_value
get-reserve_new r idx v fresh =
    let l = claims_of r idx ++ r ∷ [] in
    let pushed = insert r.value l idx.reservations in
    ground (
      arith,
      get-insert r.value v l idx.reservations,
      get-insert r.value r.value l idx.reservations,
      get-insert r.value v (resolve_list l).0 pushed,
      resolve_list-short l,
      beq_refl r.value,
    )

-- An open reservation keeps the invariant of a unique index that every value that is claimed at all
-- has exactly one claim that is not lost.
pub reserve-IsElected :
    (r : Reservation) (idx : UniqueIndex)
    → is_open r ≡ true
    → IsElected idx
    → IsElected (reserve r idx)
reserve-IsElected r idx open_claim h v l found =
    elim (Bool-cases (any (λ s. same_claim s r) (claims_of r idx))) [
      | inl again ↦ elim (Option-cases (get r.value idx.reservations)) [
        | inl missing ↦ absurd (ground arith)
        | inr (m, at) ↦ ground (arith, get-reserve_again r idx v again, h r.value m at, h v l)
      ]
      | inr fresh ↦ ground (
        arith,
        get-reserve_new r idx v fresh,
        h v l,
        resolve_list-snoc (claims_of r idx) r open_claim,
      )
    ]

pub new_index-IsElected : IsElected new_index
new_index-IsElected value l h = absurd (ground (arith, get-empty {V = List Reservation} value))
