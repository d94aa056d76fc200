-- ===== src/Crdt/OrSet/Tests.antt =====
-- Runs of the OR-map on the inputs of the tests in orset.rs, and the theorems at such inputs.
use conflict_free_oltp_v.Base.{
  ◌≡◌, ◌↔◌, ◌||◌, refl, true, false, some, ℕ, [], ◌∷◌, str, Str, list_ord, nat_ord,
}
use conflict_free_oltp_v.BTree.{computes}
use conflict_free_oltp_v.Crdt.Clocks.{HlcTimestamp, stamp_ord}
use conflict_free_oltp_v.Crdt.Token.{Token, token_ord}
use conflict_free_oltp_v.Crdt.OrSet.{
  OrMap, no_entry, insert_entry, is_live, later_tombstone, new, insert_row, delete_row, merge,
  is_visible, exists_for_fk, visible_rows,
}
use conflict_free_oltp_v.Crdt.OrSet.Visibility.{
  removed_token, has_tombstone, live_token, is_visible-merge_iff, tombstone-merge_hides,
}

program : Unit {0}
unfolding insert_row delete_row merge is_live later_tombstone is_visible exists_for_fk visible_rows
    removed_token computes token_ord stamp_ord
program = tt

abbrev ts : ℕ → Str → HlcTimestamp
ts wall peer = record { wall_ms = wall; logical = 0; peer_id = peer }

abbrev r1 : Str
r1 = str "r1"

abbrev inserted : OrMap
inserted = insert_row r1 (ts 100 (str "A")) new

-- add wins over a deletion with no tombstone
concurrent_insert_add_wins :
    is_visible r1 (
      merge
        (insert_row r1 (ts 102 (str "A")) inserted)
        (delete_row r1 (ts 101 (str "B")) false inserted))
    ≡ true
unfolding program
concurrent_insert_add_wins = refl

delete_makes_invisible : visible_rows (delete_row r1 (ts 200 (str "A")) false inserted) ≡ []
unfolding program
delete_makes_invisible = refl

two_rows :
    visible_rows (insert_row r1 (ts 5 (str "B")) (insert_row (str "r2") (ts 1 (str "A")) new))
    ≡ r1 ∷ str "r2" ∷ []
unfolding program
two_rows = refl

is_visible-merge_iff_example : (is_visible r1 (merge inserted inserted) ≡ true) ↔ (
    ((has_tombstone r1 inserted || has_tombstone r1 inserted) ≡ false)
    × ((t : Token) × ((live_token r1 inserted t || live_token r1 inserted t) ≡ true)
        × ((removed_token r1 inserted t || removed_token r1 inserted t) ≡ false)))
is_visible-merge_iff_example = is_visible-merge_iff r1 inserted inserted

tombstone-merge_hides_example :
    (is_visible r1 (
        merge
          (insert_row r1 (ts 300 (str "A")) inserted)
          (delete_row r1 (ts 200 (str "B")) true inserted))
      ≡ false)
    × (exists_for_fk r1 (
          merge
            (insert_row r1 (ts 300 (str "A")) inserted)
            (delete_row r1 (ts 200 (str "B")) true inserted))
        ≡ true)
unfolding program
tombstone-merge_hides_example =
    tombstone-merge_hides r1 (ts 200 (str "B")) (insert_row r1 (ts 300 (str "A")) inserted) inserted
      (insert_entry (ts 100 (str "A")) (some no_entry)) refl
