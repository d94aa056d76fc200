-- ===== src/Dashboard/Spread.antt =====
-- How a fact spreads over the peers that are online while the rounds of src/bin/dashboard_server.rs
-- go through all pairs.
use conflict_free_oltp_v.Base.{
  Bool, true, false, ◌&&◌, ◌||◌, List, [], ◌∷◌, any, ◌≡◌, refl, sym, ap, ◌∙◌, subst, arith, beq,
  beq_refl, beq_comm, eq_of_beq, Bool-cases, inl, inr, if◌then◌else◌, Str, list_ord, nat_ord,
}
use conflict_free_oltp_v.Crdt.OrSet.Rows.{among}

-- No key is there twice.
abbrev pub IsNodup : List Str → Type 0
IsNodup [] = Unit {0}
IsNodup (x ∷ l) = (among x l ≡ false) × IsNodup l

-- Two peers that join what they know.
abbrev pub spread_two : (Bool → Bool → Bool) → Str → Str → (Str → Bool) → Str → Bool
spread_two join a b known x = if beq a x || beq b x then join (known a) (known b) else known x

module _ (on : Str → Bool) (join : Bool → Bool → Bool) where
  abbrev pub spread_pair : Str → Str → (Str → Bool) → Str → Bool
  spread_pair a b known = if on a && on b then spread_two join a b known else known

  unfoldable pub spread_row : Str → List Str → (Str → Bool) → Str → Bool
  spread_row a [] known = known
  spread_row a (b ∷ keys) known = spread_row a keys (spread_pair a b known)

  unfoldable pub spread_round : List Str → (Str → Bool) → Str → Bool
  unfolding spread_row
  spread_round [] known = known
  spread_round (a ∷ keys) known = spread_round keys (spread_row a keys known)

  -- A peer off line spreads nothing.
  spread_row_off :
      (a : Str) (keys : List Str) (known : Str → Bool) (x : Str)
      → on a ≡ false
      → spread_row a keys known x ≡ known x
  unfolding spread_row
  spread_row_off a [] known x h = refl
  spread_row_off a (b ∷ keys) known x h =
      spread_row_off a keys (spread_pair a b known) x h ∙ ground arith

  -- Who is not in the row is left alone.
  spread_row_other :
      (a : Str) (keys : List Str) (known : Str → Bool) (x : Str)
      → beq a x ≡ false
      → among x keys ≡ false
      → spread_row a keys known x ≡ known x
  unfolding spread_row
  spread_row_other a [] known x h k = refl
  spread_row_other a (b ∷ keys) known x h k =
      spread_row_other a keys (spread_pair a b known) x h (ground arith) ∙ ground arith

  spread_round_other :
      (keys : List Str) (known : Str → Bool) (x : Str)
      → among x keys ≡ false
      → spread_round keys known x ≡ known x
  unfolding spread_round
  spread_round_other [] known x h = refl
  spread_round_other (a ∷ keys) known x h =
      spread_round_other keys (spread_row a keys known) x (ground arith)
      ∙ spread_row_other a keys known x (ground arith) (ground arith)

-- Some peer of the list is online and knows.
abbrev pub heard : (Str → Bool) → (Str → Bool) → List Str → Bool
heard on known keys = any (λ x. on x && known x) keys

heard_congr :
    (on known known' : Str → Bool) (keys : List Str)
    → ((x : Str) → among x keys ≡ true → known x ≡ known' x)
    → heard on known keys ≡ heard on known' keys
heard_congr on known known' [] h = refl
heard_congr on known known' (x ∷ keys) h =
    ground (arith, h x, beq_refl x, heard_congr on known known' keys (λ y k. h y (ground arith)))

pub heard_le :
    (on known : Str → Bool) (keys : List Str) → any on keys ≡ false → heard on known keys ≡ false
heard_le on known [] h = refl
heard_le on known (x ∷ keys) h = ground (arith, heard_le on known keys)

-- An id that is in the list, against one that is not.
beq_of_among :
    (x y : Str) (keys : List Str) → among x keys ≡ false → among y keys ≡ true → beq x y ≡ false
beq_of_among x y keys h k = elim (Bool-cases (beq x y)) [
  | inl same ↦ absurd (ground (arith, ap (λ i. among i keys) (eq_of_beq x y same)))
  | inr other ↦ other
]

pub any_of_among :
    (on : Str → Bool) (x : Str) (keys : List Str)
    → among x keys ≡ true
    → on x ≡ true
    → any on keys ≡ true
any_of_among on x [] m h = absurd (cc)
any_of_among on x (y ∷ keys) m h = elim (Bool-cases (beq y x)) [
  | inl same ↦ ground (arith, ap on (eq_of_beq y x same))
  | inr other ↦ ground (arith, any_of_among on x keys)
]

module _ (on : Str → Bool) where
  heard_pair :
      (a b : Str) (keys : List Str) (known : Str → Bool)
      → among a keys ≡ false
      → among b keys ≡ false
      → heard on (spread_pair on ◌||◌ a b known) keys ≡ heard on known keys
  heard_pair a b keys known h k =
      heard_congr on (spread_pair on ◌||◌ a b known) known keys
        (λ x m. ground (arith, beq_of_among a x keys h m, beq_of_among b x keys k m))

  spread_row_self :
      (a : Str) (keys : List Str) (known : Str → Bool)
      → on a ≡ true
      → among a keys ≡ false
      → IsNodup keys
      → spread_row on ◌||◌ a keys known a ≡ (known a || heard on known keys)
  unfolding spread_row
  spread_row_self a [] known h k d = ground arith
  spread_row_self a (b ∷ keys) known h k d =
      spread_row_self a keys (spread_pair on ◌||◌ a b known) h (ground arith) d.1
      ∙ ground (arith, heard_pair a b keys known, beq_refl a, d.0)

  heard-spread_row :
      (a : Str) (keys : List Str) (known : Str → Bool)
      → on a ≡ true
      → among a keys ≡ false
      → IsNodup keys
      → heard on (spread_row on ◌||◌ a keys known) keys
        ≡ (any on keys && (known a || heard on known keys))
  unfolding spread_row
  heard-spread_row a [] known h k d = refl
  heard-spread_row a (b ∷ keys) known h k d =
      let next = spread_pair on ◌||◌ a b known in
      ground (
        arith,
        heard-spread_row a keys next h,
        spread_row_other on ◌||◌ a keys next b,
        heard_pair a b keys known,
        heard_le on known keys,
        beq_refl a,
        beq_refl b,
        beq_comm a b,
        d.0,
        d.1,
      )

  -- After a round every peer that is online knows what one of them knew.
  pub spread_round-heard :
      (keys : List Str) (known : Str → Bool) (x : Str)
      → IsNodup keys
      → among x keys ≡ true
      → on x ≡ true
      → spread_round on ◌||◌ keys known x ≡ heard on known keys
  unfolding spread_round
  spread_round-heard [] known x d m h = absurd (cc)
  spread_round-heard (a ∷ keys) known x d m h =
      let next = spread_row on ◌||◌ a keys known in
      elim (Bool-cases (beq a x)) [
        | inl same ↦
            let e = eq_of_beq a x same in
            subst (λ i. on i ≡ true → spread_round on ◌||◌ keys next i ≡ heard on known (a ∷ keys))
              e
              (λ live.
                spread_round_other on ◌||◌ keys next a d.0
                ∙ spread_row_self a keys known live d.0 d.1
                ∙ ground arith)
              h
        | inr other ↦
            spread_round-heard keys next x d.1 (ground arith) h ∙ elim (Bool-cases (on a)) [
              | inl live ↦
                  heard-spread_row a keys known live d.0 d.1
                  ∙ ground (arith, any_of_among on x keys)
              | inr off ↦
                  heard_congr on next known keys (λ y k. spread_row_off on ◌||◌ a keys known y off)
                  ∙ ground arith
            ]
      ]

-- Marks: who has met another peer that is online.
abbrev pub mark : Bool → Bool → Bool
mark a b = true

module _ (on : Str → Bool) where
  spread_row_kept :
      (a : Str) (keys : List Str) (met : Str → Bool) (x : Str)
      → met x ≡ true
      → spread_row on mark a keys met x ≡ true
  unfolding spread_row
  spread_row_kept a [] met x h = h
  spread_row_kept a (b ∷ keys) met x h =
      spread_row_kept a keys (spread_pair on mark a b met) x (ground arith)

  spread_round_kept :
      (keys : List Str) (met : Str → Bool) (x : Str)
      → met x ≡ true
      → spread_round on mark keys met x ≡ true
  unfolding spread_round
  spread_round_kept [] met x h = h
  spread_round_kept (a ∷ keys) met x h =
      spread_round_kept keys (spread_row on mark a keys met) x (spread_row_kept a keys met x h)

  -- A row of a peer that is online marks it and each other one that is.
  spread_row_met :
      (a b : Str) (keys : List Str) (met : Str → Bool)
      → on a ≡ true
      → on b ≡ true
      → among b keys ≡ true
      → (spread_row on mark a keys met a ≡ true) × (spread_row on mark a keys met b ≡ true)
  unfolding spread_row
  spread_row_met a b [] met h k m = absurd (cc)
  spread_row_met a b (c ∷ keys) met h k m =
      let next = spread_pair on mark a c met in
      elim (Bool-cases (beq c b)) [
        | inl same ↦
            let live = subst (λ i. on i ≡ true) (sym (eq_of_beq c b same)) k in
            (
              spread_row_kept a keys next a (ground (arith, beq_refl a)),
              spread_row_kept a keys next b (ground arith),
            )
        | inr other ↦ spread_row_met a b keys next h k (ground arith)
      ]

  pub spread_round-met :
      (keys : List Str) (met : Str → Bool) (x y : Str)
      → IsNodup keys
      → among x keys ≡ true
      → among y keys ≡ true
      → beq x y ≡ false
      → on x ≡ true
      → on y ≡ true
      → spread_round on mark keys met x ≡ true
  unfolding spread_round
  spread_round-met [] met x y d m n ne h k = absurd (cc)
  spread_round-met (a ∷ keys) met x y d m n ne h k =
      let next = spread_row on mark a keys met in
      elim (Bool-cases (beq a x)) [
        | inl same ↦
            let e = eq_of_beq a x same in
            let there : among y keys ≡ true = ground (arith, ap (λ i. beq i y) e) in
            let live : on a ≡ true = subst (λ i. on i ≡ true) (sym e) h in
            spread_round_kept keys next x
              (subst (λ i. next i ≡ true) e (spread_row_met a y keys met live k there).0)
        | inr other ↦ elim (Bool-cases (beq a y)) [
          | inl same ↦
              let live : on a ≡ true = subst (λ i. on i ≡ true) (sym (eq_of_beq a y same)) k in
              spread_round_kept keys next x (spread_row_met a x keys met live h (ground arith)).1
          | inr another ↦ spread_round-met keys next x y d.1 (ground arith) (ground arith) ne h k
        ]
      ]
