-- ===== src/Crdt/MvRegister.antt =====
-- src/crdt/mv_register.rs: the multi-value register of a cell.
pub mod Covered
pub mod Lattice
pub mod Write
mod Tests
use conflict_free_oltp_v.Base.{
  ℕ, Bool, true, not, ◌&&◌, Option, none, some, List, ◌∷◌, ◌≡◌, Ord, beq, blt, list_ord, nat_ord,
  any, last, length, and_then, unwrap_or, is_some, Bytes, Str,
}
use conflict_free_oltp_v.BTree.{BTreeMap, empty, insert, retain, absorb, values}
use conflict_free_oltp_v.Crdt.Clocks.{HlcTimestamp, stamp_ord}
use conflict_free_oltp_v.Crdt.Token.{Token, token_ord, token}

pub record MvEntry : Type 0 where
  pub hlc : HlcTimestamp
  pub value : Option Bytes

-- `self.hlc >= other.hlc` for the same peer.
abbrev pub dominates : MvEntry → MvEntry → Bool
dominates e other = beq e.hlc.peer_id other.hlc.peer_id && not (blt e.hlc other.hlc)

pub record MvRegister : Type 0 where
  pub entries : BTreeMap Token MvEntry

unfoldable pub new : MvRegister
new = record { entries = empty }

-- A write drops every entry of its own peer.
unfoldable pub write : HlcTimestamp → Option Bytes → MvRegister → MvRegister
write hlc value r = record {
  entries =
      insert (token hlc) (record { hlc = hlc; value = value })
        (retain (λ k e. not (beq e.hlc.peer_id hlc.peer_id)) r.entries);
}

-- Some entry dominates the candidate and is not of its stamp.
pub is_covered : BTreeMap Token MvEntry → MvEntry → Bool
is_covered m candidate =
    any (λ e. dominates e candidate && not (beq e.hlc candidate.hlc)) (values m)

pub compact : BTreeMap Token MvEntry → BTreeMap Token MvEntry
compact m = retain (λ k candidate. not (is_covered m candidate)) m

-- `entry(key).or_insert_with(..)`: an entry that is there stays.
pub union : BTreeMap Token MvEntry → BTreeMap Token MvEntry → BTreeMap Token MvEntry
union m n = absorb (λ k e before. unwrap_or e before) m n

unfoldable pub merge : MvRegister → MvRegister → MvRegister
unfolding is_covered compact union
merge r other = record { entries = compact (union r.entries other.entries) }

abbrev pub canonical_value : MvRegister → Option MvEntry
canonical_value r = last (values r.entries)

unfoldable pub read : MvRegister → Option Bytes
read r = and_then (canonical_value r) (λ e. e.value)

unfoldable pub is_deleted : MvRegister → Bool
is_deleted r = elim (canonical_value r) [ some e ↦ not (is_some e.value) | none ↦ true ]

unfoldable pub concurrent_count : MvRegister → ℕ
concurrent_count r = length r.entries.entries
