-- ===== src/Crdt/Token.antt =====
-- The triple (wall_ms, logical, peer_id) by which orset.rs tags insertions and mv_register.rs keys
-- its entries; anti_entropy.rs calls it a fingerprint. Triples compare field by field.
use conflict_free_oltp_v.Base.{ℕ, ◌≡◌, Ord, pair_ord, nat_ord, list_ord, ord_by, Str, arith}
use conflict_free_oltp_v.Crdt.Clocks.{HlcTimestamp}

abbrev pub Token : Type 0
Token = ℕ × ℕ × Str

abbrev pub token_key : Token → ℕ × (ℕ × Str)
token_key t = (t.0, (t.1, t.2))

pub token_key-injective : (s t : Token) → token_key s ≡ token_key t → s ≡ t
token_key-injective s t e = ground arith

instance unfoldable pub token_ord : Ord Token
token_ord = ord_by token_key token_key-injective

abbrev pub token : HlcTimestamp → Token
token hlc = (hlc.wall_ms, hlc.logical, hlc.peer_id)

pub token-injective : (s t : HlcTimestamp) → token s ≡ token t → s ≡ t
token-injective s t e = ground arith
