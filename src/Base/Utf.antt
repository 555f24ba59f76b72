-- ===== src/Base/Utf.antt =====
-- The UTF-8 and UTF-16 encodings of Rust's standard library, on texts as lists of scalar values.
pub mod Decoded
use Prim.Native.Nat.{ℕ, zero, suc, ◌+◌, ◌-◌, ◌*◌, ◌/◌, ◌%◌}
use mathlib.Core.Bool.{Bool, true, false, ◌&&◌, ◌||◌, not}
use mathlib.Core.Option.{Option, none, some}
use mathlib.Core.List.{List, [], ◌∷◌, ◌++◌}
use cloud_agent.Base.Tests.{if◌then◌else◌, ltb, leb}
use cloud_agent.Base.Results.{Result, ok, err, ◌>>=◌}
use cloud_agent.Base.Text.{Text}

-- `char`: a Unicode scalar value, no surrogate.
unfoldable pub is_scalar : ℕ → Bool
is_scalar c = ltb c 0xD800 || (leb 0xE000 c && ltb c 0x110000)

-- The bytes of one character.
unfoldable pub utf8_bytes : ℕ → List ℕ
utf8_bytes c =
    if ltb c 0x80
    then c ∷ []
    else if ltb c 0x800
    then (0xC0 + c / 64) ∷ (0x80 + c % 64) ∷ []
    else if ltb c 0x10000
    then (0xE0 + c / 4096) ∷ (0x80 + c / 64 % 64) ∷ (0x80 + c % 64) ∷ []
    else (0xF0 + c / 262144) ∷ (0x80 + c / 4096 % 64) ∷ (0x80 + c / 64 % 64) ∷ (0x80 + c % 64) ∷ []

-- `str::as_bytes`
unfoldable pub as_bytes : Text → List ℕ
unfolding utf8_bytes
as_bytes [] = []
as_bytes (c ∷ s) = utf8_bytes c ++ as_bytes s

abbrev pub is_continuation : ℕ → Bool
is_continuation b = leb 0x80 b && ltb b 0xC0

-- A character that takes at least as many bytes as were read, with the bytes after its first.
abbrev pub scalar_from : ℕ → ℕ → ℕ → Option (ℕ × ℕ)
unfolding is_scalar
scalar_from least c more = if leb least c && is_scalar c then some (c, more) else none

abbrev pub two_bytes : ℕ → List ℕ → Option (ℕ × ℕ)
two_bytes b (b₁ ∷ _) =
    if is_continuation b₁ then scalar_from 0x80 ((b - 0xC0) * 64 + (b₁ - 0x80)) 1 else none
two_bytes b _ = none

abbrev pub three_bytes : ℕ → List ℕ → Option (ℕ × ℕ)
three_bytes b (b₁ ∷ b₂ ∷ _) =
    if is_continuation b₁ && is_continuation b₂
    then scalar_from 0x800 ((b - 0xE0) * 4096 + (b₁ - 0x80) * 64 + (b₂ - 0x80)) 2
    else none
three_bytes b _ = none

abbrev pub four_bytes : ℕ → List ℕ → Option (ℕ × ℕ)
four_bytes b (b₁ ∷ b₂ ∷ b₃ ∷ _) =
    let c = (b - 0xF0) * 262144 + (b₁ - 0x80) * 4096 + (b₂ - 0x80) * 64 + (b₃ - 0x80) in
    if is_continuation b₁ && (is_continuation b₂ && is_continuation b₃)
    then scalar_from 0x10000 c 3
    else none
four_bytes b _ = none

-- The character that starts with the byte `b`, with how many of the bytes after it belong to it.
unfoldable pub utf8_char : ℕ → List ℕ → Option (ℕ × ℕ)
utf8_char b rest =
    if ltb b 0x80
    then some (b, 0)
    else if ltb b 0xC0
    then none
    else if ltb b 0xE0
    then two_bytes b rest
    else if ltb b 0xF0
    then three_bytes b rest
    else if ltb b 0xF8
    then four_bytes b rest
    else none

-- `skip` bytes belong to the character before; `valid` bytes have been read.
unfoldable pub utf8_from : ℕ → ℕ → List ℕ → Result ℕ Text
unfolding utf8_char
utf8_from skip valid [] = ok []
utf8_from (suc skip) valid (b ∷ bytes) = utf8_from skip valid bytes
utf8_from zero valid (b ∷ bytes) = elim (utf8_char b bytes) [
  | none ↦ err valid
  | some (c, more) ↦ utf8_from more (valid + suc more) bytes >>= λ s. ok (c ∷ s)
]

-- `str::from_utf8`; the error is its `valid_up_to`.
unfoldable pub from_utf8 : List ℕ → Result ℕ Text
unfolding utf8_from
from_utf8 bytes = utf8_from 0 0 bytes

unfoldable pub utf16_units : ℕ → List ℕ
utf16_units c =
    if ltb c 0x10000
    then c ∷ []
    else (0xD800 + (c - 0x10000) / 1024) ∷ (0xDC00 + (c - 0x10000) % 1024) ∷ []

-- `str::encode_utf16`
unfoldable pub encode_utf16 : Text → List ℕ
unfolding utf16_units
encode_utf16 [] = []
encode_utf16 (c ∷ s) = utf16_units c ++ encode_utf16 s

-- `String::from_utf16`; `high` is a high surrogate that waits for its low one.
unfoldable pub utf16_from : Option ℕ → List ℕ → Option Text
utf16_from none [] = some []
utf16_from (some high) [] = none
utf16_from none (u ∷ units) =
    if ltb u 0xD800 || leb 0xE000 u
    then elim (utf16_from none units) [ none ↦ none | some s ↦ some (u ∷ s) ]
    else if ltb u 0xDC00
    then utf16_from (some u) units
    else none
utf16_from (some high) (u ∷ units) =
    let c = 0x10000 + (high - 0xD800) * 1024 + (u - 0xDC00) in
    if leb 0xDC00 u && ltb u 0xE000
    then elim (utf16_from none units) [ none ↦ none | some s ↦ some (c ∷ s) ]
    else none
