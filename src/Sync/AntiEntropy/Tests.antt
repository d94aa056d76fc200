-- ===== src/Sync/AntiEntropy/Tests.antt =====
-- Two logs that share their first operation, and the theorems about an exchange at them.
use conflict_free_oltp_v.Base.{
  map_option, some, true, false, ◌||◌, any, [], ◌∷◌, ◌≡◌, refl, ap, ◌∙◌, arith, beq, eq_of_beq,
  subst, Bool-cases, inl, inr, Bytes, Str, str, list_ord, nat_ord, ℕ,
}
use conflict_free_oltp_v.BTree.{computes, contains, insert, empty}
use conflict_free_oltp_v.Crdt.Token.{token_ord}
use conflict_free_oltp_v.Crdt.Merge.{hlc, CrdtOp, CrdtOp-discrete, insert_row, same_op}
use conflict_free_oltp_v.Storage.OpLog
use conflict_free_oltp_v.Storage.OpLog.{LogEntry, OpLog, append, ops}
use conflict_free_oltp_v.Storage.OpLog.Append.{IsLog, new-IsLog, append-IsLog}
use conflict_free_oltp_v.Sync.AntiEntropy.{
  fingerprint, fingerprints, sync_peers, new_cursor, compute_delta,
}
use conflict_free_oltp_v.Sync.AntiEntropy.Exchange.{contains-fingerprints}
use conflict_free_oltp_v.Sync.AntiEntropy.Stamps.{Agree, stamped, sync_peers-stamped}
use conflict_free_oltp_v.Sync.AntiEntropy.Merkle.{
  MerkleDigest, build, differs_at, diff_buckets, diff_buckets_complete,
}
use conflict_free_oltp_v.Sync.AntiEntropy.Cursor.{
  compute_delta-omits_first, compute_delta-caught_up,
}

abbrev entry_hash : LogEntry → Bytes
entry_hash e = e.seq ∷ e.prev_hash

abbrev put : ℕ → Str → CrdtOp
put wall peer =
    insert_row (str "t") (str "r") (record { wall_ms = wall; logical = 0; peer_id = peer }) []

abbrev shared : CrdtOp
shared = put 1 (str "A")

abbrev later : CrdtOp
later = put 2 (str "A")

abbrev start : OpLog
start = (append entry_hash shared OpLog.new).0

abbrev log_a : OpLog
log_a = (append entry_hash later start).0

abbrev log_b : OpLog
log_b = (append entry_hash (put 3 (str "B")) start).0

start-IsLog : IsLog entry_hash start
start-IsLog = append-IsLog entry_hash shared OpLog.new (new-IsLog entry_hash)

log_a-IsLog : IsLog entry_hash log_a
log_a-IsLog = append-IsLog entry_hash later start start-IsLog

log_b-IsLog : IsLog entry_hash log_b
log_b-IsLog = append-IsLog entry_hash (put 3 (str "B")) start start-IsLog

logs-Agree : Agree log_a log_b
unfolding append CrdtOp-discrete computes fingerprints token_ord
logs-Agree t p q = elim (Bool-cases (beq (fingerprint shared) t)) [
  | inl both ↦
      subst (λ u. stamped u (ops log_a) ≡ stamped u (ops log_b))
        (eq_of_beq (fingerprint shared) t both) refl
  | inr other ↦ absurd (
      let known : (beq (fingerprint later) t || false) ≡ true =
        ground (arith, contains-fingerprints t log_a) in
      let e : fingerprint later ≡ t = eq_of_beq (fingerprint later) t (ground arith) in
      let missing : contains (fingerprint later) (fingerprints log_b) ≡ false = refl in
      let there : contains (fingerprint later) (fingerprints log_b) ≡ true =
        ap (λ u. contains u (fingerprints log_b)) e ∙ q in
      ground (arith, missing, there))
]

sync_peers-stamped_example :
    let s = sync_peers entry_hash log_a log_b (str "A") (str "B") new_cursor new_cursor in
    stamped (fingerprint later) (ops s.log_a) ≡ stamped (fingerprint later) (ops s.log_b)
sync_peers-stamped_example =
    sync_peers-stamped entry_hash log_a log_b (str "A") (str "B") new_cursor new_cursor log_a-IsLog
      log_b-IsLog logs-Agree (fingerprint later)

abbrev first_entry : LogEntry
first_entry = record { seq = 0; op = shared; prev_hash = OpLog.zero_hash }

abbrev second_entry : LogEntry
second_entry = record { seq = 1; op = later; prev_hash = entry_hash first_entry }

log_a-entries : log_a.entries ≡ first_entry ∷ second_entry ∷ []
unfolding append CrdtOp-discrete computes
log_a-entries = refl

compute_delta-omits_first_example :
    any (λ op. same_op op shared) (compute_delta (str "A") log_a new_cursor).ops ≡ false
compute_delta-omits_first_example =
    compute_delta-omits_first entry_hash (str "A") log_a new_cursor first_entry (second_entry ∷ [])
      log_a-IsLog log_a-entries

compute_delta-caught_up_example :
    (compute_delta (str "A") log_a (compute_delta (str "A") log_a new_cursor).new_cursor).ops ≡ []
compute_delta-caught_up_example =
    compute_delta-caught_up entry_hash (str "A") log_a new_cursor log_a-IsLog

abbrev digest : ℕ → Bytes → MerkleDigest
digest bucket fed = record { bucket_size = 4; buckets = insert bucket fed empty; total_ops = 2 }

-- The hash is the identity here, and an operation its stamp's wall clock.
abbrev wall_of : CrdtOp → Bytes
wall_of op = (hlc op).wall_ms ∷ []

digest_built :
    map_option (λ d. d.buckets) (build wall_of (λ fed. fed) log_a 4)
    ≡ some (insert 0 (1 ∷ 2 ∷ []) empty)
unfolding build append CrdtOp-discrete computes
digest_built = refl

diff_buckets_complete_example :
    any (λ c. beq c 1) (diff_buckets (digest 0 []) (digest 1 []))
    ≡ differs_at (digest 0 []) (digest 1 []) 1
diff_buckets_complete_example = diff_buckets_complete (digest 0 []) (digest 1 []) 1
