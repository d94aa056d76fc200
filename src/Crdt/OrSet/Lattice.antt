-- ===== src/Crdt/OrSet/Lattice.antt =====
-- `merge` of src/crdt/orset.rs as a join.
use conflict_free_oltp_v.Base.{
  Option, none, some, ◌≡◌, refl, ap, list_ord, nat_ord, Str, arith, Option-cases, inl, inr,
}
use conflict_free_oltp_v.BTree.{get, union}
use conflict_free_oltp_v.BTree.Join.{IsJoin}
use conflict_free_oltp_v.BTree.Laws.{map_ext, get-absorb, get-empty}
use conflict_free_oltp_v.BTree.Sets.{union_comm, union_assoc, union_idem, union-empty}
use conflict_free_oltp_v.Crdt.Clocks.{HlcTimestamp, stamp_ord}
use conflict_free_oltp_v.Crdt.Token.{token_ord}
use conflict_free_oltp_v.Crdt.OrSet.{
  OrMapEntry, OrMap, new, no_entry, merge_entry, merge, later_tombstone,
}

later_tombstone_comm : (a b : Option HlcTimestamp) → later_tombstone a b ≡ later_tombstone b a
unfolding later_tombstone
later_tombstone_comm none none = refl
later_tombstone_comm none (some b) = refl
later_tombstone_comm (some a) none = refl
later_tombstone_comm (some a) (some b) =
    ground (arith, stamp_ord.cmp_swap a b, stamp_ord.eq_of_cmp a b)

later_tombstone_assoc :
    (a b c : Option HlcTimestamp)
    → later_tombstone (later_tombstone a b) c ≡ later_tombstone a (later_tombstone b c)
unfolding later_tombstone
later_tombstone_assoc none b c = refl
later_tombstone_assoc (some a) none c = refl
later_tombstone_assoc (some a) (some b) none = ground arith
later_tombstone_assoc (some a) (some b) (some c) = ground (
  arith,
  stamp_ord.lt_trans a b c,
  stamp_ord.lt_trans b a c,
  stamp_ord.cmp_swap a b,
  stamp_ord.cmp_swap b c,
  stamp_ord.cmp_swap a c,
  stamp_ord.eq_of_cmp a b,
  stamp_ord.eq_of_cmp b c,
  stamp_ord.lt_trans a c b,
)

later_tombstone_idem : (a : Option HlcTimestamp) → later_tombstone a a ≡ a
unfolding later_tombstone
later_tombstone_idem none = refl
later_tombstone_idem (some a) = ground arith

-- Two entries of one row, merged.
abbrev join : OrMapEntry → OrMapEntry → OrMapEntry
join e other = record {
  live = union e.live other.live;
  removed = union e.removed other.removed;
  tombstone_ts = later_tombstone e.tombstone_ts other.tombstone_ts;
}

join_comm : (a b : OrMapEntry) → join a b ≡ join b a
join_comm a b = λ i. record {
  live = union_comm a.live b.live i;
  removed = union_comm a.removed b.removed i;
  tombstone_ts = later_tombstone_comm a.tombstone_ts b.tombstone_ts i;
}

join_assoc : (a b c : OrMapEntry) → join (join a b) c ≡ join a (join b c)
join_assoc a b c = λ i. record {
  live = union_assoc a.live b.live c.live i;
  removed = union_assoc a.removed b.removed c.removed i;
  tombstone_ts = later_tombstone_assoc a.tombstone_ts b.tombstone_ts c.tombstone_ts i;
}

join_idem : (a : OrMapEntry) → join a a ≡ a
join_idem a = λ i. record {
  live = union_idem a.live i;
  removed = union_idem a.removed i;
  tombstone_ts = later_tombstone_idem a.tombstone_ts i;
}

join-no_entry : (a : OrMapEntry) → join no_entry a ≡ a
unfolding later_tombstone
join-no_entry a = λ i. record {
  live = union-empty a.live i;
  removed = union-empty a.removed i;
  tombstone_ts = a.tombstone_ts;
}

-- Two optional entries, merged: the entry of the row after `merge`.
abbrev pub join_option : Option OrMapEntry → Option OrMapEntry → Option OrMapEntry
join_option none other = other
join_option (some e) none = some e
join_option (some e) (some other) = some (join e other)

pub get-merge :
    (row_id : Str) (m n : OrMap)
    → get row_id (merge m n).rows ≡ join_option (get row_id m.rows) (get row_id n.rows)
unfolding merge
get-merge row_id m n = elim (Option-cases (get row_id n.rows)) [
  | inl e ↦ ground (arith, get-absorb merge_entry row_id m.rows n.rows)
  | inr (w, e) ↦ ground (arith, get-absorb merge_entry row_id m.rows n.rows, join-no_entry w)
]

or_map_ext : (m n : OrMap) → ((k : Str) → get k m.rows ≡ get k n.rows) → m ≡ n
or_map_ext m n h = let p = map_ext m.rows n.rows h in λ i. record { rows = p i }

join_option_comm : (a b : Option OrMapEntry) → join_option a b ≡ join_option b a
join_option_comm none none = refl
join_option_comm none (some b) = refl
join_option_comm (some a) none = refl
join_option_comm (some a) (some b) = ap some (join_comm a b)

join_option_assoc :
    (a b c : Option OrMapEntry) → join_option (join_option a b) c ≡ join_option a (join_option b c)
join_option_assoc none b c = refl
join_option_assoc (some a) none c = refl
join_option_assoc (some a) (some b) none = refl
join_option_assoc (some a) (some b) (some c) = ap some (join_assoc a b c)

join_option_idem : (a : Option OrMapEntry) → join_option a a ≡ a
join_option_idem none = refl
join_option_idem (some a) = ap some (join_idem a)

-- Merging two OR-maps in either order gives the same map.
pub merge_comm : (m n : OrMap) → merge m n ≡ merge n m
merge_comm m n =
    or_map_ext (merge m n) (merge n m)
      (λ k. rw (get-merge k m n, get-merge k n m) (join_option_comm (get k m.rows) (get k n.rows)))

-- The grouping of merges does not matter.
pub merge_assoc : (m n p : OrMap) → merge (merge m n) p ≡ merge m (merge n p)
merge_assoc m n p = or_map_ext (merge (merge m n) p) (merge m (merge n p)) λ k.
    rw (get-merge k (merge m n) p, get-merge k m n, get-merge k m (merge n p), get-merge k n p)
      (join_option_assoc (get k m.rows) (get k n.rows) (get k p.rows))

-- Merging a map with itself changes nothing.
pub merge_idem : (m : OrMap) → merge m m ≡ m
merge_idem m =
    or_map_ext (merge m m) m (λ k. rw (get-merge k m m) (join_option_idem (get k m.rows)))

-- Merge of OR-maps is commutative, associative and idempotent on all OR-maps.
pub or_map-IsJoin : IsJoin (λ (m : OrMap). Unit {0}) merge
or_map-IsJoin = record {
  closed = λ m n p q. tt;
  comm = λ m n p q. merge_comm m n;
  assoc = λ m n l p q r. merge_assoc m n l;
  idem = λ m p. merge_idem m;
}

-- The empty map is a unit.
pub new-merge : (m : OrMap) → merge new m ≡ m
new-merge m =
    or_map_ext (merge new m) m
      (λ k. rw (get-merge k new m) (ap (λ o. join_option o (get k m.rows)) (get-empty k)))
