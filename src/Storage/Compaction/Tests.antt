-- ===== src/Storage/Compaction/Tests.antt =====
-- A tracker of two known peers, of which one is silent.
use conflict_free_oltp_v.Base.{
  ◌||◌, ◌&&◌, ◌==◌, all, any, is_some, none, [], ◌∷◌, ◌≡◌, refl, str, list_ord, nat_ord, true,
}
use conflict_free_oltp_v.BTree.{get, computes}
use conflict_free_oltp_v.Storage.Compaction.{
  GcTracker, new, ack, is_safe_to_gc, acked_or_silent, is_safe_to_gc_iff,
}

abbrev tracker : GcTracker
tracker = ack (str "A") 7 (new (str "A" ∷ []))

silent_peer : get (str "B") tracker.peer_acks ≡ none
unfolding ack computes
silent_peer = refl

is_safe_to_gc_iff_example : is_safe_to_gc 5 tracker ≡ (
    (5 == 0)
    || (any (λ p. is_some (get p tracker.peer_acks)) tracker.known_peers
        && all (acked_or_silent 5 tracker.peer_acks) tracker.known_peers))
is_safe_to_gc_iff_example = is_safe_to_gc_iff 5 tracker

-- Peer B has acknowledged nothing, and entry 5 is safe.
collected_too_early :
    is_safe_to_gc 5 (record tracker { known_peers = str "B" ∷ tracker.known_peers }) ≡ true
unfolding ack computes is_safe_to_gc
collected_too_early = refl
