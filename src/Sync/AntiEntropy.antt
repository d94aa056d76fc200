-- ===== src/Sync/AntiEntropy.antt =====
-- src/sync/anti_entropy.rs: cursors, deltas and the exchange of two logs; Merkle has the digests.
pub mod Exchange
pub mod Stamps
pub mod Cursor
pub mod Merkle
mod Tests
use conflict_free_oltp_v.Base.{
  ℕ, ◌+◌, ◌-◌, ◌*◌, ◌/◌, Bool, not, ◌&&◌, Option, none, some, List, [], ◌∷◌, ◌++◌, map, filter,
  last, length, beq, list_ord, nat_ord, unwrap_or, Bytes, Str,
}
use conflict_free_oltp_v.BTree.{BTreeMap, BTreeSet, empty, get, add, contains, update_entry, union}
use conflict_free_oltp_v.Crdt.Token.{Token, token_ord, token}
use conflict_free_oltp_v.Crdt.Merge.{CrdtOp, hlc}
use conflict_free_oltp_v.Storage.OpLog.{
  LogEntry, OpLog, ops, append, since, max_seq, len, raise_entry,
}

pub record SyncCursor : Type 0 where
  pub frontier : BTreeMap Str ℕ

abbrev pub new_cursor : SyncCursor
new_cursor = record { frontier = empty }

unfoldable pub observe : Str → ℕ → SyncCursor → SyncCursor
observe peer_id seq c = record { frontier = raise_entry peer_id seq c.frontier }

unfoldable pub max_seq_for : Str → SyncCursor → ℕ
max_seq_for peer_id c = unwrap_or 0 (get peer_id c.frontier)

pub record SyncDelta : Type 0 where
  pub source_peer : Str
  pub ops : List CrdtOp
  pub new_cursor : SyncCursor

-- `e.op.hlc().peer_id == local_peer_id`
abbrev pub is_local : Str → LogEntry → Bool
is_local peer e = beq (hlc e.op).peer_id peer

unfoldable pub compute_delta : Str → OpLog → SyncCursor → SyncDelta
compute_delta local_peer_id local_log remote_cursor = record {
  source_peer = local_peer_id;
  ops =
      map (λ e. e.op)
        (filter (is_local local_peer_id)
          (since (max_seq_for local_peer_id remote_cursor) local_log));
  new_cursor = elim (last (filter (is_local local_peer_id) local_log.entries)) [
    | none ↦ remote_cursor
    | some e ↦ observe local_peer_id e.seq remote_cursor
  ];
}

-- `log.iter().map(fingerprint).collect()`
abbrev pub fingerprint : CrdtOp → Token
fingerprint op = token (hlc op)

pub collect_set : List Token → BTreeSet Token
collect_set [] = empty
collect_set (t ∷ l) = add t (collect_set l)

unfoldable pub fingerprints : OpLog → BTreeSet Token
unfolding collect_set
fingerprints log = collect_set (map fingerprint (ops log))

-- The operations of `source` whose fingerprints are not in the set, in log order.
abbrev pub missing_from : BTreeSet Token → List CrdtOp → List CrdtOp
missing_from seen l = filter (λ op. not (contains (fingerprint op) seen)) l

pub record Synced : Type 0 where
  pub log_a : OpLog
  pub log_b : OpLog
  pub cursor_a : SyncCursor
  pub cursor_b : SyncCursor
  pub a_sent : ℕ
  pub b_sent : ℕ

module _ (hash : LogEntry → Bytes) where
  -- `for op in ops { log.append(op) }`
  unfoldable pub append_all : List CrdtOp → OpLog → OpLog
  append_all [] log = log
  append_all (op ∷ l) log = append_all l (append hash op log).0

  -- The operations applied are all those of the delta.
  unfoldable pub apply_delta : SyncDelta → OpLog → OpLog × List CrdtOp
  unfolding append_all
  apply_delta delta log = (append_all delta.ops log, delta.ops)

  unfoldable pub sync_peers : OpLog → OpLog → Str → Str → SyncCursor → SyncCursor → Synced
  unfolding append_all
  sync_peers log_a log_b id_a id_b cursor_a cursor_b =
      let ops_for_b = missing_from (fingerprints log_b) (ops log_a) in
      let ops_for_a = missing_from (fingerprints log_a) (ops log_b) in
      let log_b' = append_all ops_for_b log_b in
      let log_a' = append_all ops_for_a log_a in
      record {
        log_a = log_a';
        log_b = log_b';
        cursor_a = observe id_b (max_seq log_b') cursor_a;
        cursor_b = observe id_a (max_seq log_a') cursor_b;
        a_sent = length ops_for_b;
        b_sent = length ops_for_a;
      }
