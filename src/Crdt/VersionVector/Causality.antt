-- ===== src/Crdt/VersionVector/Causality.antt =====
-- What a version vector of src/crdt/clocks.rs has seen.
use conflict_free_oltp_v.Base.{
  Bool, true, false, not, ◌&&◌, ◌||◌, Option, none, some, ◌≡◌, refl, sym, ap, ◌∙◌, arith, beq, blt,
  eq_of_beq, or_false, blt_trans, not_lt_not_eq, pair_ord, nat_ord, list_ord, Bool-cases, inl, inr,
}
use conflict_free_oltp_v.Crdt.Clocks.{HlcTimestamp}
use conflict_free_oltp_v.Crdt.VersionVector.{
  Seen, IndexMap, stamp_seen, raised, observe, dominates_ts, merge, join_seen, get-merge, get-raise,
}

-- An entry has reached a stamp.
abbrev reached : Seen → Option Seen → Bool
reached s none = false
reached s (some v) = not (blt v s)

zero_least : (v : Seen) → blt v (0, 0) ≡ false
zero_least v = ground arith

le_lt_trans : (u v s : Seen) → blt u v ≡ false → blt u s ≡ true → blt v s ≡ true
le_lt_trans u v s h k = elim (Bool-cases (blt v u)) [
  | inl less ↦ blt_trans v u s less k
  | inr equal ↦
      let same : u ≡ v = eq_of_beq u v (ground (arith, not_lt_not_eq u v)) in
      ap (λ x. blt x s) (sym same) ∙ k
]

raised-none : (v : Seen) → raised v none ≡ v
raised-none v = elim (Bool-cases (blt (0, 0) v)) [
  | inl above ↦ rw above refl
  | inr equal ↦
      let same : (0, 0) ≡ v =
        eq_of_beq (0, 0) v (ground (arith, not_lt_not_eq (0, 0) v, zero_least v)) in
      ground (arith, same)
]

-- The greater of two entries has reached what either has.
reached-join :
    (s : Seen) (a b : Option Seen) → reached s (join_seen a b) ≡ (reached s a || reached s b)
reached-join s a none = or_false (reached s a)
reached-join s none (some v) = ap (λ x. not (blt x s)) (raised-none v)
reached-join s (some u) (some v) = ground (arith, blt_trans u v s, le_lt_trans u v s)

module _ {M : Type 0} (index_map : IndexMap M) where
  dominates_ts-reached :
      (ts : HlcTimestamp) (m : M)
      → dominates_ts index_map ts m ≡ reached (stamp_seen ts) (index_map.get ts.peer_id m)
  unfolding dominates_ts
  dominates_ts-reached ts m = ground arith

  -- After a merge a version vector has seen exactly the stamps that either side had, over every
  -- implementation of the map that satisfies the interface.
  pub dominates_ts-merge :
      (ts : HlcTimestamp) (a b : M)
      → dominates_ts index_map ts (merge index_map a b)
        ≡ (dominates_ts index_map ts a || dominates_ts index_map ts b)
  dominates_ts-merge ts a b = ground (
    arith,
    dominates_ts-reached ts (merge index_map a b),
    dominates_ts-reached ts a,
    dominates_ts-reached ts b,
    get-merge index_map ts.peer_id a b,
    reached-join (stamp_seen ts) (index_map.get ts.peer_id a) (index_map.get ts.peer_id b),
  )

  -- After a stamp is observed, a version vector has seen the stamps it had seen and those of the
  -- same peer that are not later, over every implementation of the map that satisfies the
  -- interface.
  pub dominates_ts-observe :
      (t s : HlcTimestamp) (m : M)
      → dominates_ts index_map s (observe index_map t m) ≡ (
          dominates_ts index_map s m
          || (beq t.peer_id s.peer_id && not (blt (stamp_seen t) (stamp_seen s))))
  unfolding observe
  dominates_ts-observe t s m = elim (Bool-cases (beq t.peer_id s.peer_id)) [
    | inl same ↦
        let peer = eq_of_beq t.peer_id s.peer_id same in
        ground (
          arith,
          dominates_ts-reached s (observe index_map t m),
          dominates_ts-reached s m,
          get-raise index_map t.peer_id s.peer_id (stamp_seen t) m,
          ap (λ k. index_map.get k m) peer,
          reached-join (stamp_seen s) (index_map.get s.peer_id m) (some (stamp_seen t)),
        )
    | inr other ↦ ground (
      arith,
      dominates_ts-reached s (observe index_map t m),
      dominates_ts-reached s m,
      get-raise index_map t.peer_id s.peer_id (stamp_seen t) m,
    )
  ]
