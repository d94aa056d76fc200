-- ===== src/Engine/Tests.antt =====
-- Two engines on one table, each with a user of its own and one e-mail address for both.
mod Cascaded
mod Sql
use conflict_free_oltp_v.Base.{
  ℕ, Bool, true, false, ◌||◌, Option, none, some, List, [], ◌∷◌, any, ◌≡◌, refl, sym, ap, ◌∙◌,
  arith, beq, eq_of_beq, Bool-cases, inl, inr, Bytes, Str, str, list_ord, nat_ord, starts_with,
  split, subst,
}
use conflict_free_oltp_v.BTree.{computes, contains}
use conflict_free_oltp_v.Crdt.Clocks.{HlcTimestamp, new_clock}
use conflict_free_oltp_v.Crdt.Token.{Token, token_ord, token}
use conflict_free_oltp_v.Crdt.Merge.{
  TableSchema, ColumnDef, text, CrdtOp, CrdtOp-discrete, insert_row, reserve_unique, create_table,
}
use conflict_free_oltp_v.Storage.OpLog
use conflict_free_oltp_v.Storage.OpLog.{OpLog, LogEntry, append, ops}
use conflict_free_oltp_v.Storage.OpLog.Append.{IsLog, new-IsLog, append-IsLog}
use conflict_free_oltp_v.Constraints.ForeignKeys.{cascade}
use conflict_free_oltp_v.Sync.AntiEntropy.{fingerprint, fingerprints}
use conflict_free_oltp_v.Sync.AntiEntropy.Exchange.{contains-fingerprints}
use conflict_free_oltp_v.Sync.AntiEntropy.Stamps.{Agree, stamped}
use conflict_free_oltp_v.Engine.State.{Engine, open_with_policy}
use conflict_free_oltp_v.Engine.Columns.{cols_to_null}
use conflict_free_oltp_v.Engine.Total.{is_ill_named, rebuilt-total}
use conflict_free_oltp_v.Engine.Rebuild.{rebuilt, sync_with}
use conflict_free_oltp_v.Engine.Replay.{Replayed}
use conflict_free_oltp_v.Engine.Convergence.{sync_with-converges}

abbrev pub entry_hash : LogEntry → Bytes
entry_hash e = e.seq ∷ e.prev_hash

abbrev stamp : ℕ → Str → HlcTimestamp
stamp wall peer = record { wall_ms = wall; logical = 0; peer_id = peer }

abbrev users : TableSchema
users = record {
  name = str "users";
  columns = [];
  foreign_keys = [];
  indexes = [];
  composite_unique_constraints = [];
}

abbrev pub create_users : CrdtOp
create_users = create_table (str "users") users (stamp 1 (str "A"))

abbrev pub ann : CrdtOp
ann = insert_row (str "users") (str "ann") (stamp 2 (str "A")) ((str "mail", some (str "x")) ∷ [])

abbrev pub ann_mail : CrdtOp
ann_mail = reserve_unique (str "users") (str "mail") (str "x") (str "ann") (stamp 2 (str "A"))

abbrev pub bob : CrdtOp
bob = insert_row (str "users") (str "bob") (stamp 3 (str "B")) ((str "mail", some (str "x")) ∷ [])

abbrev pub bob_mail : CrdtOp
bob_mail = reserve_unique (str "users") (str "mail") (str "x") (str "bob") (stamp 3 (str "B"))

abbrev pub push : CrdtOp → OpLog → OpLog
push op log = (append entry_hash op log).0

abbrev pub log_a : OpLog
log_a = push ann_mail (push ann (push create_users OpLog.new))

abbrev pub log_b : OpLog
log_b = push bob_mail (push bob (push create_users OpLog.new))

abbrev pub engine_a : Engine
engine_a = record (open_with_policy (str "A") cascade) { log = log_a }

abbrev pub engine_b : Engine
engine_b = record (open_with_policy (str "B") cascade) { log = log_b }

pub log_a-IsLog : IsLog entry_hash log_a
log_a-IsLog = append-IsLog entry_hash ann_mail (push ann (push create_users OpLog.new)) (
    append-IsLog entry_hash ann (push create_users OpLog.new)
      (append-IsLog entry_hash create_users OpLog.new (new-IsLog entry_hash)))

pub log_b-IsLog : IsLog entry_hash log_b
log_b-IsLog = append-IsLog entry_hash bob_mail (push bob (push create_users OpLog.new)) (
    append-IsLog entry_hash bob (push create_users OpLog.new)
      (append-IsLog entry_hash create_users OpLog.new (new-IsLog entry_hash)))

logs-Agree : Agree log_a log_b
unfolding append CrdtOp-discrete computes fingerprints token_ord
logs-Agree t p q = elim (Bool-cases (beq (fingerprint create_users) t)) [
  | inl shared ↦
      let e = eq_of_beq (fingerprint create_users) t shared in
      subst (λ u. stamped u (ops log_a) ≡ stamped u (ops log_b)) e refl
  | inr other ↦ absurd (
      let known : (beq (fingerprint ann) t || (beq (fingerprint ann_mail) t || false)) ≡ true =
        ground (arith, contains-fingerprints t log_a) in
      let e : fingerprint ann ≡ t = eq_of_beq (fingerprint ann) t (ground arith) in
      let missing : contains (fingerprint ann) (fingerprints log_b) ≡ false = refl in
      let there : contains (fingerprint ann) (fingerprints log_b) ≡ true =
        ap (λ u. contains u (fingerprints log_b)) e ∙ q in
      ground (arith, missing, there))
]

pub well_named_a : any is_ill_named (ops log_a) ≡ false
unfolding append CrdtOp-discrete computes cols_to_null
well_named_a = refl

pub well_named_b : any is_ill_named (ops log_b) ≡ false
unfolding append CrdtOp-discrete computes cols_to_null
well_named_b = refl

one_policy : engine_a.fk_policy ≡ engine_b.fk_policy
unfolding open_with_policy
one_policy = refl

sync_with-converges_example :
    (a' : Engine) × (b' : Engine) × (sync_with entry_hash engine_a engine_b ≡ some (a', b'))
    × (a'.store ≡ b'.store)
    × (a'.uniqueness ≡ b'.uniqueness)
sync_with-converges_example =
    sync_with-converges entry_hash engine_a engine_b log_a-IsLog log_b-IsLog logs-Agree one_policy
      well_named_a well_named_b

rebuilt-total_example : (r : Replayed) × (rebuilt cascade (ops log_a) ≡ some r)
rebuilt-total_example = rebuilt-total cascade (ops log_a) well_named_a
