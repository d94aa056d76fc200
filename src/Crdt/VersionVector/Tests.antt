-- ===== src/Crdt/VersionVector/Tests.antt =====
-- The ordered map as the map of a version vector, and the theorems at it.
use conflict_free_oltp_v.Base.{
  ℕ, true, false, ◌||◌, none, List, [], ◌∷◌, find, map_option, ◌≡◌, refl, arith, beq, Ord, pair_ord,
  nat_ord, list_ord, Str, str,
}
use conflict_free_oltp_v.BTree.{BTreeMap, empty, get, insert, computes}
use conflict_free_oltp_v.BTree.Entries.{IsSorted, Above, Above-trans, get_entry}
use conflict_free_oltp_v.BTree.Laws.{get-empty, get-insert}
use conflict_free_oltp_v.Crdt.Clocks.{HlcTimestamp}
use conflict_free_oltp_v.Crdt.VersionVector.{
  Seen, IndexMap, KeysOnce, observe, dominates_ts, merge, dominated_by,
}
use conflict_free_oltp_v.Crdt.VersionVector.Causality.{dominates_ts-merge}

abbrev key_ord : Ord Str
key_ord = list_ord

find-Above : (k : Str) (l : List (Str × Seen)) → Above k l → find (λ e. beq e.0 k) l ≡ none
find-Above k [] a = refl
find-Above k ((j, v) ∷ l) a = ground (arith, find-Above k l a.1, key_ord.cmp_swap k j)

get_entry-find :
    (k : Str) (l : List (Str × Seen))
    → IsSorted l
    → get_entry k l ≡ map_option (λ e. e.1) (find (λ e. beq e.0 k) l)
unfolding get_entry
get_entry-find k [] s = refl
get_entry-find k ((j, v) ∷ l) s =
    ground
      (arith, get_entry-find k l s.1, key_ord.cmp_swap k j, find-Above k l, Above-trans k j l, s.0)

KeysOnce-sorted : (l : List (Str × Seen)) → IsSorted l → KeysOnce l
KeysOnce-sorted [] s = tt
KeysOnce-sorted ((j, v) ∷ l) s = (find-Above j l s.0, KeysOnce-sorted l s.1)

get-find :
    (k : Str) (m : BTreeMap Str Seen)
    → get k m ≡ map_option (λ e. e.1) (find (λ e. beq e.0 k) m.entries)
unfolding get
get-find k m = get_entry-find k m.entries m.sorted

abbrev ordered : IndexMap (BTreeMap Str Seen)
ordered = record {
  empty = empty;
  get = λ k m. get k m;
  set_entry = λ k v m. insert k v m;
  entries = λ m. m.entries;
  get-empty = λ k. get-empty {V = Seen} k;
  get-set_entry = λ k j v m. get-insert k j v m;
  get-entries = get-find;
  entries-KeysOnce = λ m. KeysOnce-sorted m.entries m.sorted;
}

abbrev ts : ℕ → Str → HlcTimestamp
ts wall peer = record { wall_ms = wall; logical = 0; peer_id = peer }

abbrev seen_a : BTreeMap Str Seen
seen_a = observe ordered (ts 100 (str "A")) empty

abbrev seen_b : BTreeMap Str Seen
seen_b = observe ordered (ts 50 (str "B")) empty

merged_dominates :
    (dominates_ts ordered (ts 40 (str "B")) (merge ordered seen_a seen_b) ≡ true)
    × (dominates_ts ordered (ts 60 (str "B")) (merge ordered seen_a seen_b) ≡ false)
    × (dominated_by ordered seen_a (merge ordered seen_a seen_b) ≡ true)
unfolding observe dominates_ts merge dominated_by computes
merged_dominates = (refl, refl, refl)

dominates_ts-merge_example :
    dominates_ts ordered (ts 40 (str "B")) (merge ordered seen_a seen_b) ≡ (
      dominates_ts ordered (ts 40 (str "B")) seen_a
      || dominates_ts ordered (ts 40 (str "B")) seen_b)
dominates_ts-merge_example = dominates_ts-merge ordered (ts 40 (str "B")) seen_a seen_b
