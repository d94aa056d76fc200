-- ===== src/Constraints/Uniqueness/Election.antt =====
-- The election of src/constraints/uniqueness_protocol.rs among the claims to one value.
use conflict_free_oltp_v.Base.{
  ℕ, zero, suc, ◌+◌, ◌-◌, ◌≤◌, true, false, not, some, List, [], ◌∷◌, all, get_elem?, ◌==◌, ◌≡◌,
  ◌⊎◌, refl, sym, ap, ◌∙◌, arith, blt, eq_of_beq, blt_trans, blt_irrefl, not_lt_not_eq, map_option,
  subst, if◌then◌else◌, Str, Bool-cases, inl, inr, pair_ord, list_ord, nat_ord,
}
use conflict_free_oltp_v.Crdt.Clocks.{HlcTimestamp, stamp_ord}
use conflict_free_oltp_v.Constraints.Uniqueness.{
  Reservation, claim_key, winner_from, mark, resolve_list, marked_won, marked_lost, beats,
}

-- No reservation of the list has a greater key.
abbrev pub IsGreatest : Reservation → List Reservation → Type 0
IsGreatest w l = all (λ r. not (beats r w)) l ≡ true

-- Who does not lose against the best is not beaten by whom the best beats.
not_blt_trans : (a b c : HlcTimestamp × Str) → blt b a ≡ false → blt c b ≡ false → blt c a ≡ false
not_blt_trans a b c h k = elim (Bool-cases (blt a b)) [
  | inl less ↦ elim (Bool-cases (blt c a)) [
    | inl below ↦ absurd (ground (arith, blt_trans c a b below less))
    | inr above ↦ above
  ]
  | inr equal ↦ ground (arith, not_lt_not_eq a b, not_lt_not_eq b a, eq_of_beq a b)
]

all_not_beats :
    (best w : Reservation) (l : List Reservation)
    → beats best w ≡ false
    → IsGreatest best l
    → IsGreatest w l
all_not_beats best w [] h g = refl
all_not_beats best w (r ∷ l) h g =
    ground
      (arith, all_not_beats best w l h, not_blt_trans (claim_key r) (claim_key best) (claim_key w))

-- The winner of the rest of a list, from position `n` on, after `best` at position `i`.
abbrev pub Wins : ℕ → Reservation → ℕ → List Reservation → ℕ × Reservation → Type 0
Wins i best n l z =
    (beats best z.1 ≡ false)
    × IsGreatest z.1 l
    × (((z.0 ≡ i) × (z.1 ≡ best)) ⊎ ((n ≤ z.0) × (get_elem? l (z.0 - n) ≡ some z.1)))

get_elem?-shift :
    (r : Reservation) (l : List Reservation) (k n : ℕ)
    → n + 1 ≤ k
    → get_elem? (r ∷ l) (k - n) ≡ get_elem? l (k - (n + 1))
get_elem?-shift r l k n h =
    let e : k - n ≡ suc (k - (n + 1)) = omega arith in ap (get_elem? (r ∷ l)) e

get_elem?-first :
    (r : Reservation) (l : List Reservation) (k n : ℕ) → k ≡ n → get_elem? (r ∷ l) (k - n) ≡ some r
get_elem?-first r l k n h = let e : k - n ≡ 0 = omega arith in ap (get_elem? (r ∷ l)) e

-- A place further on.
abbrev Later : ℕ → Reservation → ℕ → List Reservation → Type 0
Later k w n l = (n ≤ k) × (get_elem? l (k - n) ≡ some w)

Later-suc :
    (r w : Reservation) (l : List Reservation) (k n : ℕ) → Later k w (n + 1) l → Later k w n (r ∷ l)
Later-suc r w l k n h = (omega (arith, h.0), get_elem?-shift r l k n h.0 ∙ h.1)

Wins-below :
    (i : ℕ) (best : Reservation) (n : ℕ) (r : Reservation) (l : List Reservation)
    (z : ℕ × Reservation)
    → beats best r ≡ true
    → Wins i best (n + 1) l z
    → Wins i best n (r ∷ l) z
Wins-below i best n r l z below (ahead, greatest, place) = (
  ahead,
  ground (arith, blt_trans (claim_key z.1) (claim_key r) (claim_key best)),
  elim place [ inl here ↦ inl here | inr later ↦ inr (Later-suc r z.1 l z.0 n later) ],
)

Wins-above :
    (i : ℕ) (best : Reservation) (n : ℕ) (r : Reservation) (l : List Reservation)
    (z : ℕ × Reservation)
    → beats best r ≡ false
    → Wins n r (n + 1) l z
    → Wins i best n (r ∷ l) z
Wins-above i best n r l z above (ahead, greatest, place) = (
  not_blt_trans (claim_key best) (claim_key r) (claim_key z.1) above ahead,
  ground arith,
  elim place [
    | inl here ↦
        inr (omega (arith, here.0), get_elem?-first r l z.0 n here.0 ∙ ap some (sym here.1))
    | inr later ↦ inr (Later-suc r z.1 l z.0 n later)
  ],
)

pub winner_from-Wins :
    (i : ℕ) (best : Reservation) (n : ℕ) (l : List Reservation)
    → Wins i best n l (winner_from i best n l)
unfolding winner_from
winner_from-Wins i best n [] = (blt_irrefl (claim_key best), refl, inl (refl, refl))
winner_from-Wins i best n (r ∷ l) = elim (Bool-cases (beats best r)) [
  | inl below ↦
      let step : winner_from i best n (r ∷ l) ≡ winner_from i best (n + 1) l = rw below refl in
      subst (Wins i best n (r ∷ l)) (sym step) (
        Wins-below i best n r l (winner_from i best (n + 1) l) below
          (winner_from-Wins i best (n + 1) l))
  | inr above ↦
      let step : winner_from i best n (r ∷ l) ≡ winner_from n r (n + 1) l = rw above refl in
      subst (Wins i best n (r ∷ l)) (sym step)
        (Wins-above i best n r l (winner_from n r (n + 1) l) above (winner_from-Wins n r (n + 1) l))
]

get_elem?-mark :
    (k : ℕ) (w : Reservation) (n : ℕ) (l : List Reservation) (j : ℕ)
    → get_elem? (mark k w n l) j
      ≡ map_option (λ r. if (n + j) == k then marked_won r else marked_lost w r) (get_elem? l j)
unfolding mark
get_elem?-mark k w n [] j = refl
get_elem?-mark k w n (r ∷ l) zero =
    ap (λ m. some (if m == k then marked_won r else marked_lost w r)) (add_zero n)
  where
    add_zero : (n : ℕ) → n ≡ n + 0
    add_zero n = omega arith
get_elem?-mark k w n (r ∷ l) (suc j) =
    get_elem?-mark k w (n + 1) l j
    ∙ ap (λ m. map_option (λ s. if m == k then marked_won s else marked_lost w s) (get_elem? l j))
        (add_suc n j)
  where
    add_suc : (n j : ℕ) → (n + 1) + j ≡ n + suc j
    add_suc n j = omega arith

-- An election among two or more claims marks one as won, the greatest by stamp and row, and every
-- other as lost to it, and moves none.
pub resolve_list-elects :
    (r s : Reservation) (l : List Reservation)
    → (k : ℕ) × (w : Reservation) × (get_elem? (r ∷ s ∷ l) k ≡ some w)
      × IsGreatest w (r ∷ s ∷ l)
      × ((j : ℕ)
          → get_elem? (resolve_list (r ∷ s ∷ l)).0 j
            ≡ map_option
                (λ x. if j == k then marked_won x else marked_lost w x)
                (get_elem? (r ∷ s ∷ l) j))
unfolding resolve_list
resolve_list-elects r s l =
    let z = winner_from 0 r 1 (s ∷ l) in
    let (ahead, greatest, place) = winner_from-Wins 0 r 1 (s ∷ l) in
    (
      z.0,
      z.1,
      elim place [
        | inl here ↦ ap (get_elem? (r ∷ s ∷ l)) here.0 ∙ ap some (sym here.1)
        | inr later ↦ ap (get_elem? (r ∷ s ∷ l)) (pred_suc z.0 later.0) ∙ later.1
      ],
      ground arith,
      λ j.
          get_elem?-mark z.0 z.1 0 (r ∷ s ∷ l) j
          ∙ ap
              (λ m.
                map_option (λ x. if m == z.0 then marked_won x else marked_lost z.1 x)
                  (get_elem? (r ∷ s ∷ l) j))
              (zero_add j),
    )
  where
    pred_suc : (k : ℕ) → 1 ≤ k → k ≡ suc (k - 1)
    pred_suc k h = omega arith

    zero_add : (j : ℕ) → 0 + j ≡ j
    zero_add j = omega arith
