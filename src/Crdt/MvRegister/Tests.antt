-- ===== src/Crdt/MvRegister/Tests.antt =====
-- Runs of the register on the inputs of the tests in mv_register.rs, and the theorems at such inputs.
use conflict_free_oltp_v.Base.{
  ◌≡◌, refl, some, none, Option, ℕ, ◌≢◌, eq, sym, str, Str, Bytes, list_ord, nat_ord, arith, beq,
  if◌then◌else◌,
}
use conflict_free_oltp_v.BTree.{get, empty, computes}
use conflict_free_oltp_v.BTree.Laws.{get-empty, get-insert}
use conflict_free_oltp_v.Crdt.Clocks.{HlcTimestamp, stamp_ord}
use conflict_free_oltp_v.Crdt.Token.{Token, token, token_ord}
use conflict_free_oltp_v.Crdt.MvRegister.{
  MvEntry, MvRegister, new, write, merge, read, concurrent_count, is_deleted, is_covered, compact,
  union,
}
use conflict_free_oltp_v.Crdt.MvRegister.Covered.{Agree}
use conflict_free_oltp_v.Crdt.MvRegister.Lattice.{IsCompact}
use conflict_free_oltp_v.Crdt.MvRegister.Write.{
  IsKeyed, written, single, unless_of, write-merge, write-write_same_peer,
}

program : Unit {0}
unfolding write merge read new concurrent_count is_deleted single computes token_ord stamp_ord
    is_covered compact union
program = tt

abbrev ts : ℕ → Str → HlcTimestamp
ts wall peer = record { wall_ms = wall; logical = 0; peer_id = peer }

abbrev a : MvRegister
a = single (ts 100 (str "A")) (some (str "v1"))

abbrev b : MvRegister
b = single (ts 100 (str "B")) (some (str "v2"))

concurrent_writes_both_survive : concurrent_count (merge a b) ≡ 2
unfolding program
concurrent_writes_both_survive = refl

later_write_same_peer_dominates :
    (concurrent_count (write (ts 200 (str "A")) (some (str "v3")) a) ≡ 1)
    × (read (write (ts 200 (str "A")) (some (str "v3")) a) ≡ some (str "v3"))
unfolding program
later_write_same_peer_dominates = (refl, refl)

stale_write_wins : read (write (ts 50 (str "A")) (some (str "old")) a) ≡ some (str "old")
unfolding program
stale_write_wins = refl

at_single :
    (hlc : HlcTimestamp) (v : Option Bytes) (k : Token) (e : MvEntry)
    → get k (single hlc v).entries ≡ some e
    → (k ≡ token hlc) × (e ≡ record { hlc = hlc; value = v })
unfolding single
at_single hlc v k e h = ground (
  arith,
  get-insert (token hlc) k (written hlc v) empty,
  get-empty {V = MvEntry} k,
  token_ord.eq_of_cmp (token hlc) k,
)

Agree-singles :
    (s t : HlcTimestamp) (v w : Option Bytes)
    → token_ord.cmp (token s) (token t) ≢ eq
    → Agree (single s v).entries (single t w).entries
Agree-singles s t v w h k x y p q =
    absurd (h (ground (arith, at_single s v k x p, at_single t w k y q, token_ord.cmp_refl k)))

a_b : Agree a.entries b.entries
unfolding program
a_b = Agree-singles (ts 100 (str "A")) (ts 100 (str "B")) (some (str "v1")) (some (str "v2")) (cc)

a_a : Agree a.entries a.entries
a_a k x y p q = ground arith

b_a : Agree b.entries a.entries
b_a k x y p q = sym (a_b k y x q p)

a-IsKeyed : IsKeyed a
a-IsKeyed k e h = ground (arith, at_single (ts 100 (str "A")) (some (str "v1")) k e h)

b-IsKeyed : IsKeyed b
b-IsKeyed k e h = ground (arith, at_single (ts 100 (str "B")) (some (str "v2")) k e h)

a-IsCompact : IsCompact a
unfolding program
a-IsCompact k e h = rw ((at_single (ts 100 (str "A")) (some (str "v1")) k e h).1) refl

write-merge_example : write (ts 200 (str "A")) none a ≡ merge a (single (ts 200 (str "A")) none)
unfolding program
write-merge_example =
    write-merge (ts 200 (str "A")) none a a-IsKeyed a-IsCompact
      (λ k e h p. rw ((at_single (ts 100 (str "A")) (some (str "v1")) k e h).1) refl)

write-write_same_peer_example :
    get
      (token (ts 90 (str "B")))
      (write (ts 50 (str "B")) none (write (ts 90 (str "B")) (some (str "x")) b)).entries
    ≡ (if beq (token (ts 50 (str "B"))) (token (ts 90 (str "B")))
        then some (record { hlc = ts 50 (str "B"); value = none })
        else unless_of (str "B") (get (token (ts 90 (str "B"))) b.entries))
write-write_same_peer_example =
    write-write_same_peer (ts 90 (str "B")) (ts 50 (str "B")) (some (str "x")) none b
      (token (ts 90 (str "B"))) b-IsKeyed refl
