-- ===== src/Constraints/Uniqueness/Tests.antt =====
-- Two claims to one value, as in the tests of uniqueness_protocol.rs.
use conflict_free_oltp_v.Base.{
  ℕ, ◌==◌, ◌≡◌, refl, some, List, [], ◌∷◌, get_elem?, map_option, if◌then◌else◌, arith, Str, str,
  list_ord, nat_ord, pair_ord,
}
use conflict_free_oltp_v.BTree.{computes, get, insert, empty}
use conflict_free_oltp_v.Crdt.Clocks.{stamp_ord}
use conflict_free_oltp_v.Constraints.Uniqueness.{
  Reservation, UniqueIndex, provisional, new_index, reserve, canonical_owner, resolve_list,
  winner_from, mark, conflicts, resolve_conflicts_for_value, marked_won, marked_lost,
}
use conflict_free_oltp_v.Constraints.Uniqueness.Elected.{
  IsElected, new_index-IsElected, reserve-IsElected,
}
use conflict_free_oltp_v.Constraints.Uniqueness.Election.{IsGreatest, resolve_list-elects}
use conflict_free_oltp_v.Constraints.Uniqueness.Owner.{SameClaims, canonical_owner-order}

abbrev claim_of : Str → ℕ → Reservation
claim_of peer wall = record {
  value = str "x";
  row_id = peer;
  owner_peer = peer;
  hlc = record { wall_ms = wall; logical = 0; peer_id = peer };
  state = provisional;
}

abbrev early : Reservation
early = claim_of (str "A") 100

abbrev late : Reservation
late = claim_of (str "B") 200

later_claim_wins :
    canonical_owner (str "x") (reserve late (reserve early new_index)) ≡ some (str "B")
unfolding canonical_owner reserve computes resolve_conflicts_for_value resolve_list winner_from mark
    conflicts stamp_ord
later_claim_wins = refl

resolve_list-elects_example :
    (k : ℕ) × (w : Reservation) × (get_elem? (early ∷ late ∷ []) k ≡ some w)
    × IsGreatest w (early ∷ late ∷ [])
    × ((j : ℕ)
        → get_elem? (resolve_list (early ∷ late ∷ [])).0 j
          ≡ map_option
              (λ x. if j == k then marked_won x else marked_lost w x)
              (get_elem? (early ∷ late ∷ []) j))
resolve_list-elects_example = resolve_list-elects early late []

abbrev contested : List Reservation → UniqueIndex
contested l = record { reservations = insert (str "x") l empty; conflict_log = [] }

stored_early_first :
    get (str "x") (contested (early ∷ late ∷ [])).reservations ≡ some (early ∷ late ∷ [])
unfolding computes
stored_early_first = refl

stored_late_first :
    get (str "x") (contested (late ∷ early ∷ [])).reservations ≡ some (late ∷ early ∷ [])
unfolding computes
stored_late_first = refl

swapped-SameClaims : SameClaims (early ∷ late ∷ []) (late ∷ early ∷ [])
swapped-SameClaims p = ground arith

canonical_owner-order_example :
    canonical_owner
      (str "x")
      (resolve_conflicts_for_value (str "x") (contested (early ∷ late ∷ [])))
    ≡ canonical_owner
        (str "x")
        (resolve_conflicts_for_value (str "x") (contested (late ∷ early ∷ [])))
canonical_owner-order_example =
    canonical_owner-order (str "x") (contested (early ∷ late ∷ [])) (contested (late ∷ early ∷ []))
      early late [] late early [] stored_early_first stored_late_first swapped-SameClaims

early-IsElected : IsElected (reserve early new_index)
early-IsElected = reserve-IsElected early new_index refl new_index-IsElected

reserve-IsElected_example : IsElected (reserve late (reserve early new_index))
reserve-IsElected_example = reserve-IsElected late (reserve early new_index) refl early-IsElected
