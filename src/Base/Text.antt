-- ===== src/Base/Text.antt =====
-- Byte vectors and strings. A `String` is its UTF-8 bytes, by which Rust compares it, so that
-- `as_bytes` is the identity. `str` writes an ASCII literal.
use Prim.Native.Nat.{ℕ}
use Prim.Native.Char.{code}
use Prim.Native.String.{String}
use mathlib.Core.List.{List, [], ◌∷◌, reverse}
use mathlib.Core.Bool.{Bool, true, false, ◌&&◌}
use conflict_free_oltp_v.Base.Tests.{◌==◌, if◌then◌else◌}

abbrev pub Bytes : Type 0
Bytes = List ℕ

abbrev pub Str : Type 0
Str = List ℕ

abbrev pub str : String → Str
str String.[] = []
str (String.◌∷◌ c s) = code c ∷ str s

-- The range of `u64` and of `u32`.
abbrev pub u64_range : ℕ
u64_range = 0x10000000000000000

abbrev pub u32_range : ℕ
u32_range = 0x100000000

-- `s.starts_with(prefix)`, `s.ends_with(suffix)`
unfoldable pub starts_with : Str → Str → Bool
starts_with s [] = true
starts_with [] (c ∷ prefix) = false
starts_with (d ∷ s) (c ∷ prefix) = d == c && starts_with s prefix

abbrev pub ends_with : Str → Str → Bool
ends_with s suffix = starts_with (reverse s) (reverse suffix)

-- A byte put before the first piece.
abbrev pub onto_first : ℕ → List Str → List Str
onto_first c [] = (c ∷ []) ∷ []
onto_first c (piece ∷ pieces) = (c ∷ piece) ∷ pieces

-- `s.split(separator)`: one piece more than there are separators.
unfoldable pub split : ℕ → Str → List Str
split separator [] = [] ∷ []
split separator (c ∷ s) =
    let rest = split separator s in if c == separator then [] ∷ rest else onto_first c rest
