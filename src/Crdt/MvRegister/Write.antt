-- ===== src/Crdt/MvRegister/Write.antt =====
-- `write` of src/crdt/mv_register.rs, against `read` and `merge`.
use conflict_free_oltp_v.Base.{
  true, false, not, Option, none, some, ◌≡◌, sym, ap, ◌∙◌, beq, blt, list_ord, nat_ord, beq_refl,
  eq_of_beq, beq_comm, blt_irrefl, Bool-cases, Option-cases, inl, inr, arith, Bytes, if◌then◌else◌,
  Str, Bool_ext,
}
use conflict_free_oltp_v.BTree.{get, insert, retain, empty}
use conflict_free_oltp_v.BTree.Laws.{get-insert, get-retain, get-empty, last_of_top, map_ext}
use conflict_free_oltp_v.Crdt.Clocks.{HlcTimestamp, stamp_ord}
use conflict_free_oltp_v.Crdt.Token.{Token, token_ord, token, token-injective}
use conflict_free_oltp_v.Crdt.MvRegister.{MvEntry, MvRegister, is_covered, write, merge, read}
use conflict_free_oltp_v.Crdt.MvRegister.Covered.{
  supersedes, supersedes_lem, supersedes_irrefl, Agree, is_covered_of_get, get_of_covered,
}
use conflict_free_oltp_v.Crdt.MvRegister.Lattice.{IsCompact, Joined, get-merge_iff, register_ext}

-- Every entry stands under its own stamp.
abbrev pub IsKeyed : MvRegister → Type 0
IsKeyed r = (k : Token) (e : MvEntry) → get k r.entries ≡ some e → k ≡ token e.hlc

-- The stamp is later than every entry of its own peer.
abbrev pub IsNewest : HlcTimestamp → MvRegister → Type 0
IsNewest hlc r =
    (k : Token) (e : MvEntry)
    → get k r.entries ≡ some e
    → beq e.hlc.peer_id hlc.peer_id ≡ true
    → blt e.hlc hlc ≡ true

abbrev pub written : HlcTimestamp → Option Bytes → MvEntry
written hlc value = record { hlc = hlc; value = value }

-- The register that holds one entry.
unfoldable pub single : HlcTimestamp → Option Bytes → MvRegister
single hlc value = record { entries = insert (token hlc) (written hlc value) empty }

pub get-write :
    (k : Token) (hlc : HlcTimestamp) (value : Option Bytes) (r : MvRegister)
    → get k (write hlc value r).entries ≡ (
        if beq (token hlc) k then some (written hlc value) else elim (get k r.entries) [
          | none ↦ none
          | some e ↦ if not (beq e.hlc.peer_id hlc.peer_id) then some e else none
        ])
unfolding write
get-write k hlc value r = ground (
  arith,
  get-insert (token hlc) k (written hlc value)
      (retain (λ j e. not (beq e.hlc.peer_id hlc.peer_id)) r.entries),
  get-retain (λ j e. not (beq e.hlc.peer_id hlc.peer_id)) k r.entries,
)

get-single :
    (k : Token) (hlc : HlcTimestamp) (value : Option Bytes)
    → get k (single hlc value).entries
      ≡ (if beq (token hlc) k then some (written hlc value) else none)
unfolding single
get-single k hlc value =
    ground (arith, get-insert (token hlc) k (written hlc value) empty, get-empty {V = MvEntry} k)

-- A read returns the value just written, if no entry of the register has a later stamp than the
-- write.
pub read-write :
    (hlc : HlcTimestamp) (value : Option Bytes) (r : MvRegister)
    → ((k : Token) (e : MvEntry) → get k r.entries ≡ some e → blt (token hlc) k ≡ false)
    → read (write hlc value r) ≡ value
unfolding read
read-write hlc value r top =
    rw (last_of_top (token hlc) (written hlc value) (write hlc value r).entries at above)
  where
    at : get (token hlc) (write hlc value r).entries ≡ some (written hlc value)
    at = ground (arith, get-write (token hlc) hlc value r, beq_refl (token hlc))

    above :
        (k : Token) (e : MvEntry)
        → get k (write hlc value r).entries ≡ some e
        → blt (token hlc) k ≡ false
    above k e h = elim (Option-cases (get k r.entries)) [
      | inl missing ↦ ground (arith, get-write k hlc value r, eq_of_beq (token hlc) k, blt_irrefl k)
      | inr (x, found) ↦ top k x found
    ]

-- A single entry covers what it supersedes.
is_covered-single :
    (hlc : HlcTimestamp) (value : Option Bytes) (e : MvEntry)
    → is_covered (single hlc value).entries e ≡ supersedes (written hlc value) e
is_covered-single hlc value e =
    Bool_ext (is_covered (single hlc value).entries e) (supersedes (written hlc value) e)
      (λ h.
        let (k, x, found, above) = get_of_covered (single hlc value).entries e h in
        ground (arith, get-single k hlc value))
      (λ h.
        is_covered_of_get (single hlc value).entries (token hlc) (written hlc value) e
          (ground (arith, get-single (token hlc) hlc value, beq_refl (token hlc))) h)

module _ (hlc : HlcTimestamp) (value : Option Bytes) (r : MvRegister) (keyed : IsKeyed r)
    (compact : IsCompact r) (newest : IsNewest hlc r) where
  -- Nothing stands at the stamp of a write that is newest.
  absent : (k : Token) (e : MvEntry) → get k r.entries ≡ some e → beq (token hlc) k ≡ false
  absent k e found =
      Bool_ext (beq (token hlc) k) false
        (λ same.
          let stamp : hlc ≡ e.hlc =
            token-injective hlc e.hlc (eq_of_beq (token hlc) k same ∙ keyed k e found) in
          ground (
            arith,
            newest k e found,
            ap (λ (t : HlcTimestamp). beq t.peer_id hlc.peer_id) stamp,
            beq_refl hlc.peer_id,
            ap (λ (t : HlcTimestamp). blt t hlc) stamp,
            blt_irrefl hlc,
          ))
        (λ h. absurd (cc))

  Agree-single : Agree r.entries (single hlc value).entries
  Agree-single k x y p q = ground (arith, absent k x p, get-single k hlc value)

  nothing_above : is_covered r.entries (written hlc value) ≡ false
  nothing_above =
      Bool_ext (is_covered r.entries (written hlc value)) false
        (λ h.
          let (k, x, found, above) = get_of_covered r.entries (written hlc value) h in
          ground (
            arith,
            supersedes_lem x (written hlc value),
            newest k x found,
            blt_irrefl hlc,
            stamp_ord.cmp_swap hlc x.hlc,
          ))
        (λ h. absurd (cc))

  -- In a register that is keyed by stamp and has no dominated entry, a write whose stamp is later
  -- than every entry of its own peer is the merge with the register that holds the written entry
  -- alone.
  pub write-merge : write hlc value r ≡ merge r (single hlc value)
  write-merge =
      register_ext (write hlc value r) (merge r (single hlc value))
        (λ k e p. (get-merge_iff r (single hlc value) Agree-single k e).1 (there k e p))
        (λ k e p. back k e ((get-merge_iff r (single hlc value) Agree-single k e).0 p))
    where
      there :
          (k : Token) (e : MvEntry)
          → get k (write hlc value r).entries ≡ some e
          → Joined r (single hlc value) k e
      there k e p = elim (Bool-cases (beq (token hlc) k)) [
        | inl here ↦
            let same : written hlc value ≡ e = ground (arith, get-write k hlc value r) in
            (
              inr (ground (arith, get-single k hlc value)),
              ap (is_covered r.entries) (sym same) ∙ nothing_above,
              is_covered-single hlc value e
                  ∙ ap (supersedes (written hlc value)) (sym same)
                  ∙ supersedes_irrefl (written hlc value),
            )
        | inr elsewhere ↦
            let kept : get k r.entries ≡ some e = elim (Option-cases (get k r.entries)) [
              | inl missing ↦ ground (arith, get-write k hlc value r)
              | inr (x, found) ↦ ground (arith, get-write k hlc value r)
            ] in
            (
              inl kept,
              compact k e kept,
              is_covered-single hlc value e
                  ∙ ground (
                    arith,
                    supersedes_lem (written hlc value) e,
                    get-write k hlc value r,
                    beq_comm hlc.peer_id e.hlc.peer_id,
                  ),
            )
      ]

      back :
          (k : Token) (e : MvEntry)
          → Joined r (single hlc value) k e
          → get k (write hlc value r).entries ≡ some e
      back k e (inl found, free, free') = ground (
        arith,
        absent k e found,
        get-write k hlc value r,
        is_covered-single hlc value e,
        supersedes_lem (written hlc value) e,
        newest k e found,
        beq_comm hlc.peer_id e.hlc.peer_id,
      )
      back k e (inr found, free, free') =
          ground (arith, get-single k hlc value, get-write k hlc value r)

-- A second write of one peer to a keyed register leaves no trace of the first.
second_write :
    (s t : HlcTimestamp) (v w : Option Bytes) (r : MvRegister)
    → IsKeyed r
    → s.peer_id ≡ t.peer_id
    → write t w (write s v r) ≡ write t w r
second_write s t v w r keyed same =
    let p = map_ext (write t w (write s v r)).entries (write t w r).entries (λ k. pointwise k) in
    λ i. record { entries = p i }
  where
    peers : beq s.peer_id t.peer_id ≡ true
    peers = rw same (beq_refl t.peer_id)

    swap : (e : MvEntry) → beq e.hlc.peer_id s.peer_id ≡ beq e.hlc.peer_id t.peer_id
    swap e = ap (beq e.hlc.peer_id) same

    own :
        (k : Token) (e : MvEntry)
        → get k r.entries ≡ some e
        → beq (token s) k ≡ true
        → beq e.hlc.peer_id s.peer_id ≡ true
    own k e found h =
        let stamp : s ≡ e.hlc =
          token-injective s e.hlc (eq_of_beq (token s) k h ∙ keyed k e found) in
        ap (λ (x : HlcTimestamp). beq x.peer_id s.peer_id) (sym stamp) ∙ beq_refl s.peer_id

    pointwise : (k : Token) → get k (write t w (write s v r)).entries ≡ get k (write t w r).entries
    pointwise k = elim (Option-cases (get k r.entries)) [
      | inl missing ↦
          ground (arith, get-write k t w (write s v r), get-write k s v r, get-write k t w r, peers)
      | inr (e, found) ↦ ground (
        arith,
        get-write k t w (write s v r),
        get-write k s v r,
        get-write k t w r,
        peers,
        swap e,
        own k e found,
      )
    ]

-- The entry, unless it is of the peer.
abbrev pub unless_of : Str → Option MvEntry → Option MvEntry
unless_of peer none = none
unless_of peer (some e) = if beq e.hlc.peer_id peer then none else some e

-- After two writes of one peer to a keyed register, whichever of their stamps is later, the
-- register has under the stamp applied last what was written last, has no other entry of that peer,
-- and has the entries of all other peers as before.
pub write-write_same_peer :
    (s t : HlcTimestamp) (v w : Option Bytes) (r : MvRegister) (k : Token)
    → IsKeyed r
    → s.peer_id ≡ t.peer_id
    → get k (write t w (write s v r)).entries ≡ (
        if beq (token t) k
        then some (record { hlc = t; value = w })
        else unless_of t.peer_id (get k r.entries))
write-write_same_peer s t v w r k keyed same =
    ap (λ x. get k x.entries) (second_write s t v w r keyed same)
    ∙ get-write k t w r
    ∙ elim (Option-cases (get k r.entries)) [
      | inl missing ↦ ground arith
      | inr (e, found) ↦ ground arith
    ]
