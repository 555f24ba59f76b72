-- ===== src/Base/Utf/Decoded.antt =====
-- Encoded characters read back.
use Prim.Native.Nat.{ℕ, suc, ◌+◌, ◌-◌, ◌*◌, ◌<◌, ◌/◌, ◌%◌}
use mathlib.Core.Path.{◌≡◌, refl}
use mathlib.Core.Bool.{true, false, ◌||◌}
use mathlib.Core.Option.{none, some}
use mathlib.Core.Logic.{inl, inr}
use mathlib.Core.List.{List, [], ◌∷◌, ◌++◌}
use native.Mathlib.Omega.{arith}
use cloud_agent.Base.Tests.{ltb, leb, Bool-cases, ltb→lt}
use cloud_agent.Base.Lists.{All}
use cloud_agent.Base.Results.{ok, ◌>>=◌}
use cloud_agent.Base.Text.{Text}
use cloud_agent.Base.Utf.{
  is_scalar, utf8_bytes, as_bytes, is_continuation, utf8_char, scalar_from, utf8_from, from_utf8,
  utf16_units, encode_utf16, utf16_from,
}

abbrev pub IsScalars : Text → Type 0
IsScalars s = All (λ c. is_scalar c ≡ true) s

one_byte : (c : ℕ) (rest : List ℕ) → ltb c 0x80 ≡ true → utf8_char c rest ≡ some (c, 0)
unfolding utf8_char
one_byte c rest h = rw h

scalar_lem :
    (least c d more : ℕ)
    → c ≡ d
    → leb least d ≡ true
    → is_scalar d ≡ true
    → scalar_from least c more ≡ some (d, more)
unfolding is_scalar
scalar_lem least c d more e low h = rw (e, low) (rw h)

-- The last six bits that a continuation byte carries.
continuation_lem : (n : ℕ) → is_continuation (0x80 + n % 64) ≡ true
continuation_lem n =
    let low : leb 0x80 (0x80 + n % 64) ≡ true = ground arith in
    let high : ltb (0x80 + n % 64) 0xC0 ≡ true = ground arith in rw (low, high)

two_bytes_lem :
    (c : ℕ) (rest : List ℕ)
    → is_scalar c ≡ true
    → ltb c 0x80 ≡ false
    → ltb c 0x800 ≡ true
    → utf8_char (0xC0 + c / 64) ((0x80 + c % 64) ∷ rest) ≡ some (c, 1)
unfolding utf8_char
two_bytes_lem c rest h low high =
    let value : (0xC0 + c / 64 - 0xC0) * 64 + (0x80 + c % 64 - 0x80) ≡ c = omega arith in
    let b₀ : ltb (0xC0 + c / 64) 0x80 ≡ false = ground arith in
    let b₁ : ltb (0xC0 + c / 64) 0xC0 ≡ false = ground arith in
    let b₂ : ltb (0xC0 + c / 64) 0xE0 ≡ true = ground (arith, high) in
    let least : leb 0x80 c ≡ true = ground (arith, low) in
    rw (b₀, b₁, b₂, continuation_lem c) (scalar_lem 0x80 _ c 1 value least h)

three_bytes_lem :
    (c : ℕ) (rest : List ℕ)
    → is_scalar c ≡ true
    → ltb c 0x800 ≡ false
    → ltb c 0x10000 ≡ true
    → utf8_char (0xE0 + c / 4096) ((0x80 + c / 64 % 64) ∷ (0x80 + c % 64) ∷ rest) ≡ some (c, 2)
unfolding utf8_char
three_bytes_lem c rest h low high =
    let value : (0xE0 + c / 4096 - 0xE0) * 4096
          + (0x80 + c / 64 % 64 - 0x80) * 64
          + (0x80 + c % 64 - 0x80)
        ≡ c =
      omega arith in
    let b₀ : ltb (0xE0 + c / 4096) 0x80 ≡ false = ground arith in
    let b₁ : ltb (0xE0 + c / 4096) 0xC0 ≡ false = ground arith in
    let b₂ : ltb (0xE0 + c / 4096) 0xE0 ≡ false = ground arith in
    let b₃ : ltb (0xE0 + c / 4096) 0xF0 ≡ true = ground (arith, high) in
    let least : leb 0x800 c ≡ true = ground (arith, low) in
    rw (b₀, b₁, b₂, b₃, continuation_lem (c / 64), continuation_lem c)
      (scalar_lem 0x800 _ c 2 value least h)

four_bytes_lem :
    (c : ℕ) (rest : List ℕ)
    → is_scalar c ≡ true
    → ltb c 0x10000 ≡ false
    → utf8_char
        (0xF0 + c / 262144)
        ((0x80 + c / 4096 % 64) ∷ (0x80 + c / 64 % 64) ∷ (0x80 + c % 64) ∷ rest)
      ≡ some (c, 3)
unfolding utf8_char is_scalar
four_bytes_lem c rest h low =
    let value : (0xF0 + c / 262144 - 0xF0) * 262144
          + (0x80 + c / 4096 % 64 - 0x80) * 4096
          + (0x80 + c / 64 % 64 - 0x80) * 64
          + (0x80 + c % 64 - 0x80)
        ≡ c =
      omega arith in
    let top : c < 0x110000 = ground (arith, h) in
    let b₀ : ltb (0xF0 + c / 262144) 0x80 ≡ false = ground arith in
    let b₁ : ltb (0xF0 + c / 262144) 0xC0 ≡ false = ground arith in
    let b₂ : ltb (0xF0 + c / 262144) 0xE0 ≡ false = ground arith in
    let b₃ : ltb (0xF0 + c / 262144) 0xF0 ≡ false = ground arith in
    let b₄ : ltb (0xF0 + c / 262144) 0xF8 ≡ true = ground (arith, top) in
    let least : leb 0x10000 c ≡ true = ground (arith, low) in
    rw
      (
        b₀,
        b₁,
        b₂,
        b₃,
        b₄,
        continuation_lem (c / 4096),
        continuation_lem (c / 64),
        continuation_lem c,
      )
      (scalar_lem 0x10000 _ c 3 value least h)

-- What is left to read after a character, at some count of valid bytes.
abbrev IsReadOff : ℕ → ℕ → List ℕ → Type 0
IsReadOff valid c rest =
    (next : ℕ) × (utf8_from 0 valid (utf8_bytes c ++ rest)
      ≡ (utf8_from 0 next rest >>= λ s. ok (c ∷ s)))

read_char :
    (valid b c more : ℕ) (bytes : List ℕ)
    → utf8_char b bytes ≡ some (c, more)
    → utf8_from 0 valid (b ∷ bytes) ≡ (utf8_from more (valid + suc more) bytes >>= λ s. ok (c ∷ s))
unfolding utf8_from
read_char valid b c more bytes h = rw (utf8_from, h)

utf8_from-bytes : (valid c : ℕ) (rest : List ℕ) → is_scalar c ≡ true → IsReadOff valid c rest
unfolding utf8_from utf8_bytes
utf8_from-bytes valid c rest h = elim (Bool-cases (ltb c 0x80)) [
  | inl e₁ ↦ (valid + 1, rw e₁ (read_char valid c c 0 rest (one_byte c rest e₁)))
  | inr e₁ ↦ elim (Bool-cases (ltb c 0x800)) [
    | inl e₂ ↦ (
      valid + 2,
      rw (e₁, e₂)
          (read_char valid (0xC0 + c / 64) c 1 ((0x80 + c % 64) ∷ rest)
            (two_bytes_lem c rest h e₁ e₂)),
    )
    | inr e₂ ↦ elim (Bool-cases (ltb c 0x10000)) [
      | inl e₃ ↦ (
        valid + 3,
        rw (e₁, e₂, e₃)
            (read_char valid (0xE0 + c / 4096) c 2 ((0x80 + c / 64 % 64) ∷ (0x80 + c % 64) ∷ rest)
              (three_bytes_lem c rest h e₂ e₃)),
      )
      | inr e₃ ↦ (
        valid + 4,
        rw (e₁, e₂, e₃)
            (read_char valid (0xF0 + c / 262144) c 3
              ((0x80 + c / 4096 % 64) ∷ (0x80 + c / 64 % 64) ∷ (0x80 + c % 64) ∷ rest)
              (four_bytes_lem c rest h e₃)),
      )
    ]
  ]
]

utf8_from-as_bytes : (s : Text) (valid : ℕ) → IsScalars s → utf8_from 0 valid (as_bytes s) ≡ ok s
unfolding as_bytes utf8_from
utf8_from-as_bytes [] valid h = refl
utf8_from-as_bytes (c ∷ s) valid (hc, hs) =
    let (next, e) = utf8_from-bytes valid c (as_bytes s) hc in rw (e, utf8_from-as_bytes s next hs)

pub from_utf8-as_bytes : (s : Text) → IsScalars s → from_utf8 (as_bytes s) ≡ ok s
unfolding from_utf8
from_utf8-as_bytes s h = utf8_from-as_bytes s 0 h

pub from_utf16-encode_utf16 : (s : Text) → IsScalars s → utf16_from none (encode_utf16 s) ≡ some s
unfolding utf16_from encode_utf16 utf16_units is_scalar
from_utf16-encode_utf16 [] h = refl
from_utf16-encode_utf16 (c ∷ s) (hc, hs) = elim (Bool-cases (ltb c 0x10000)) [
  | inl small ↦
      let plain : (ltb c 0xD800 || leb 0xE000 c) ≡ true = ground (arith, hc) in
      rw small (rw (utf16_from, plain, from_utf16-encode_utf16 s hs))
  | inr large ↦
      let top : c < 0x110000 = ground (arith, hc) in
      let value : 0x10000
            + (0xD800 + (c - 0x10000) / 1024 - 0xD800) * 1024
            + (0xDC00 + (c - 0x10000) % 1024 - 0xDC00)
          ≡ c =
        ground (arith, large) in
      let a₀ : ltb (0xD800 + (c - 0x10000) / 1024) 0xD800 ≡ false = ground arith in
      let a₁ : leb 0xE000 (0xD800 + (c - 0x10000) / 1024) ≡ false = ground (arith, top) in
      let a₂ : ltb (0xD800 + (c - 0x10000) / 1024) 0xDC00 ≡ true = ground (arith, top) in
      let b₀ : leb 0xDC00 (0xDC00 + (c - 0x10000) % 1024) ≡ true = ground arith in
      let b₁ : ltb (0xDC00 + (c - 0x10000) % 1024) 0xE000 ≡ true = ground arith in
      rw large (rw (utf16_from, a₀, a₁, a₂, b₀, b₁, from_utf16-encode_utf16 s hs, value))
]

pub All-units : (s : Text) → IsScalars s → All (λ u. u < 0x10000) (encode_utf16 s)
unfolding encode_utf16 utf16_units is_scalar
All-units [] h = tt
All-units (c ∷ s) (hc, hs) = elim (Bool-cases (ltb c 0x10000)) [
  | inl small ↦ rw small (ltb→lt c 0x10000 small, All-units s hs)
  | inr large ↦
      let top : c < 0x110000 = ground (arith, hc) in
      rw large (omega (arith, top), (omega arith, All-units s hs))
]
