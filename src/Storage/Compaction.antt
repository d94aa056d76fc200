-- ===== src/Storage/Compaction.antt =====
-- src/storage/compaction.rs: up to which entry the log could be collected.
mod Tests
use conflict_free_oltp_v.Base.{
  ℕ, min, Bool, true, false, ◌&&◌, ◌||◌, Option, none, some, List, [], ◌∷◌, all, any, leb, ◌==◌,
  ◌≡◌, refl, arith, unwrap_or, Str, list_ord, nat_ord, if◌then◌else◌, Option-cases, inl, inr,
  is_some,
}
use conflict_free_oltp_v.BTree.{BTreeMap, empty, get}
use conflict_free_oltp_v.Storage.OpLog.{raise_entry}

pub record GcTracker : Type 0 where
  pub peer_acks : BTreeMap Str ℕ
  pub known_peers : List Str

abbrev pub new : List Str → GcTracker
new known_peers = record { peer_acks = empty; known_peers = known_peers }

unfoldable pub ack : Str → ℕ → GcTracker → GcTracker
ack peer_id seq g = record g { peer_acks = raise_entry peer_id seq g.peer_acks }

-- `iter().filter_map(|p| acks.get(p)).min()`
unfoldable pub min_ack : BTreeMap Str ℕ → List Str → Option ℕ
min_ack acks [] = none
min_ack acks (p ∷ ps) =
    let rest = min_ack acks ps in
    elim (get p acks) [
      | none ↦ rest
      | some n ↦ elim rest [ none ↦ some n | some m ↦ some (min n m) ]
    ]

-- With no known peers there is no acknowledgement either.
unfoldable pub safe_seq : GcTracker → ℕ
unfolding min_ack
safe_seq g = unwrap_or 0 (min_ack g.peer_acks g.known_peers)

unfoldable pub is_safe_to_gc : ℕ → GcTracker → Bool
unfolding safe_seq
is_safe_to_gc seq g = leb seq (safe_seq g)

-- The peer has acknowledged the entry, or nothing at all.
abbrev pub acked_or_silent : ℕ → BTreeMap Str ℕ → Str → Bool
acked_or_silent seq acks p = elim (get p acks) [ none ↦ true | some n ↦ leb seq n ]

min_ack-all :
    (seq : ℕ) (acks : BTreeMap Str ℕ) (ps : List Str)
    → elim (min_ack acks ps) [ none ↦ true | some n ↦ leb seq n ]
      ≡ all (acked_or_silent seq acks) ps
unfolding min_ack
min_ack-all seq acks [] = refl
min_ack-all seq acks (p ∷ ps) = ground (arith, min_ack-all seq acks ps)

min_ack-any :
    (acks : BTreeMap Str ℕ) (ps : List Str)
    → is_some (min_ack acks ps) ≡ any (λ p. is_some (get p acks)) ps
unfolding min_ack
min_ack-any acks [] = refl
min_ack-any acks (p ∷ ps) = ground (arith, min_ack-any acks ps)

-- An entry may be collected exactly if its number is 0, or some known peer has acknowledged
-- something and every known peer that has acknowledged anything has acknowledged the entry.
pub is_safe_to_gc_iff :
    (seq : ℕ) (g : GcTracker)
    → is_safe_to_gc seq g ≡ (
        (seq == 0)
        || (any (λ p. is_some (get p g.peer_acks)) g.known_peers
            && all (acked_or_silent seq g.peer_acks) g.known_peers))
unfolding is_safe_to_gc
is_safe_to_gc_iff seq g =
    ground (arith, min_ack-all seq g.peer_acks g.known_peers, min_ack-any g.peer_acks g.known_peers)

-- A known peer that has acknowledged nothing does not hold the safe entry back.
pub safe_seq-silent :
    (g : GcTracker) (p : Str)
    → get p g.peer_acks ≡ none
    → safe_seq (record g { known_peers = p ∷ g.known_peers }) ≡ safe_seq g
unfolding safe_seq
safe_seq-silent g p h = ground arith
