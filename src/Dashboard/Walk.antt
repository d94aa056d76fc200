-- ===== src/Dashboard/Walk.antt =====
-- The order in which the rounds of src/bin/dashboard_server.rs walk the peers.
use conflict_free_oltp_v.Base.{
  Bool, true, false, ◌&&◌, List, [], ◌∷◌, ◌≡◌, refl, sym, ◌∙◌, arith, beq_refl, beq_comm,
  Bool-cases, Bool_ext, inl, inr, Str, list_ord, nat_ord, map,
}
use conflict_free_oltp_v.BTree.{BTreeMap, keys}
use conflict_free_oltp_v.BTree.Entries.{Above, IsSorted}
use conflict_free_oltp_v.Crdt.OrSet.Rows.{among}
use conflict_free_oltp_v.Engine.State.{Engine}
use conflict_free_oltp_v.Engine.Parts.{knows}
use conflict_free_oltp_v.Dashboard.Spread.{IsNodup, heard, any_of_among}
use conflict_free_oltp_v.Dashboard.Rounds.{known, live}

-- The order in which a map is walked: each of its keys once.
pub record IsOrder (order : List Str → List Str) : Type 0 where
  pub once : (l : List Str) → IsNodup l → IsNodup (order l)
  pub each : (x : Str) (l : List Str) → among x (order l) ≡ among x l

among-Above :
    {V : Type 0} (k : Str) (m : List (Str × V)) → Above k m → among k (map (λ e. e.0) m) ≡ false
among-Above k [] h = refl
among-Above k ((j, w) ∷ m) h = ground (arith, beq_comm j k, among-Above k m h.1)

IsNodup-keys_of : {V : Type 0} (m : List (Str × V)) → IsSorted m → IsNodup (map (λ e. e.0) m)
IsNodup-keys_of [] h = tt
IsNodup-keys_of ((j, w) ∷ m) h = (among-Above j m h.0, IsNodup-keys_of m h.1)

pub IsNodup-keys : (m : BTreeMap Str Engine) → IsNodup (keys m)
IsNodup-keys m = IsNodup-keys_of m.entries m.sorted

-- Some peer of the list that is online, and what it knows.
heard_member :
    (on known : Str → Bool) (l : List Str)
    → heard on known l ≡ true
    → (x : Str) × (among x l ≡ true) × (on x ≡ true) × (known x ≡ true)
heard_member on known [] h = absurd (cc)
heard_member on known (y ∷ l) h = elim (Bool-cases (on y && known y)) [
  | inl both ↦ (y, ground (arith, beq_refl y), ground arith, ground arith)
  | inr neither ↦
      let (x, m, live, knows) = heard_member on known l (ground arith) in
      (x, ground arith, live, knows)
]

heard_of_member :
    (on known : Str → Bool) (l : List Str) (x : Str)
    → among x l ≡ true
    → on x ≡ true
    → known x ≡ true
    → heard on known l ≡ true
heard_of_member on known l x m h k = any_of_among (λ y. on y && known y) x l m (ground arith)

pub heard-among :
    (on known : Str → Bool) (l l' : List Str)
    → ((x : Str) → among x l ≡ among x l')
    → heard on known l ≡ heard on known l'
heard-among on known l l' e =
    Bool_ext (heard on known l) (heard on known l')
      (λ h.
        let (x, m, live, knows) = heard_member on known l h in
        heard_of_member on known l' x (sym (e x) ∙ m) live knows)
      (λ h.
        let (x, m, live, knows) = heard_member on known l' h in
        heard_of_member on known l x (e x ∙ m) live knows)

-- What all that are online know, one of them does.
pub heard_const :
    (on known : Str → Bool) (l : List Str) (x : Str) (fact : Bool)
    → ((y : Str) → among y l ≡ true → on y ≡ true → known y ≡ fact)
    → among x l ≡ true
    → on x ≡ true
    → heard on known l ≡ fact
heard_const on known l x true h m live = heard_of_member on known l x m live (h x m live)
heard_const on known l x false h m live = elim (Bool-cases (heard on known l)) [
  | inr none_heard ↦ none_heard
  | inl some_heard ↦
      let (y, n, online, knows) = heard_member on known l some_heard in
      absurd (ground (arith, h y n online))
]
