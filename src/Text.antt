-- ===== src/Text.antt =====
-- The encodings of `str` that the client uses, as CPython has them: strict UTF-8
-- (PROTOCOL_STRING_ENCODING) and UTF-16LE (PROTOCOL_CHAR_ENCODING).
pub mod Laws
use ignite_python_thin_clien.Base.{
  ℕ, zero, suc, ◌+◌, ◌-◌, ◌*◌, ◌/◌, ◌%◌, ◌<◌, ◌≤◌, ◌⊎◌, Bool, true, false, ◌&&◌, List, [], ◌∷◌,
  ◌++◌, ltb, leb, length, if◌then◌else◌,
}
use ignite_python_thin_clien.Result.{Result, ok, err, unicode_error, ◌>>=◌}

-- A Unicode scalar value: no surrogate.
abbrev pub IsScalar : ℕ → Type 0
IsScalar c = (c < 0xd800) ⊎ ((0xe000 ≤ c) × (c < 0x110000))

abbrev pub is_surrogate : ℕ → Bool
is_surrogate c = leb 0xd800 c && ltb c 0xe000

unfoldable pub utf8_char : ℕ → Result (List ℕ)
utf8_char c =
    if ltb c 0x80
    then ok (c ∷ [])
    else if ltb c 0x800
    then ok ((192 + c / 64) ∷ (128 + c % 64) ∷ [])
    else if is_surrogate c
    then err unicode_error
    else if ltb c 0x10000
    then ok ((224 + c / 4096) ∷ (128 + c / 64 % 64) ∷ (128 + c % 64) ∷ [])
    else if ltb c 0x110000
    then ok ((240 + c / 262144) ∷ (128 + c / 4096 % 64) ∷ (128 + c / 64 % 64) ∷ (128 + c % 64) ∷ [])
    else err unicode_error

-- value.encode('utf-8')
unfoldable pub utf8_encode : List ℕ → Result (List ℕ)
utf8_encode [] = ok []
utf8_encode (c ∷ cs) = do bs ← utf8_char c; rest ← utf8_encode cs; ok (bs ++ rest)

abbrev pub is_tail : ℕ → Bool
is_tail b = leb 0x80 b && ltb b 0xc0

-- A code point of two, three or four bytes; an overlong form or a surrogate is refused.
abbrev two_bytes : ℕ → List ℕ → Result (ℕ × List ℕ)
two_bytes a (b ∷ rest) =
    if leb 0xc2 a && is_tail b then ok ((a - 192) * 64 + (b - 128), rest) else err unicode_error
two_bytes a _ = err unicode_error

abbrev three_bytes : ℕ → List ℕ → Result (ℕ × List ℕ)
three_bytes a (b ∷ d ∷ rest) =
    let c = (a - 224) * 4096 + (b - 128) * 64 + (d - 128) in
    if is_tail b && is_tail d && leb 0x800 c
    then (if is_surrogate c then err unicode_error else ok (c, rest))
    else err unicode_error
three_bytes a _ = err unicode_error

abbrev four_bytes : ℕ → List ℕ → Result (ℕ × List ℕ)
four_bytes a (b ∷ d ∷ e ∷ rest) =
    let c = (a - 240) * 262144 + (b - 128) * 4096 + (d - 128) * 64 + (e - 128) in
    if is_tail b && is_tail d && is_tail e && leb 0x10000 c && ltb c 0x110000
    then ok (c, rest)
    else err unicode_error
four_bytes a _ = err unicode_error

-- One code point, by its first byte.
unfoldable pub utf8_step : ℕ → List ℕ → Result (ℕ × List ℕ)
utf8_step a rest =
    if ltb a 0x80
    then ok (a, rest)
    else if ltb a 0xe0
    then two_bytes a rest
    else if ltb a 0xf0
    then three_bytes a rest
    else four_bytes a rest

unfoldable pub utf8_loop : ℕ → List ℕ → Result (List ℕ)
utf8_loop fuel [] = ok []
utf8_loop zero (a ∷ rest) = err unicode_error
utf8_loop (suc fuel) (a ∷ rest) = do
  (c, rest') ← utf8_step a rest
  cs ← utf8_loop fuel rest'
  ok (c ∷ cs)

-- data.decode('utf-8'). Each code point takes a byte at least, so as many rounds as there are bytes
-- are enough.
unfoldable pub utf8_decode : List ℕ → Result (List ℕ)
unfolding utf8_loop
utf8_decode bs = utf8_loop (length bs) bs

unfoldable pub utf16_char : ℕ → Result (List ℕ)
utf16_char c =
    if is_surrogate c
    then err unicode_error
    else if ltb c 0x10000
    then ok (c % 256 ∷ c / 256 ∷ [])
    else if ltb c 0x110000
    then (let hi = 0xd800 + (c - 0x10000) / 1024 in
        let lo = 0xdc00 + (c - 0x10000) % 1024 in
        ok (hi % 256 ∷ hi / 256 ∷ lo % 256 ∷ lo / 256 ∷ []))
    else err unicode_error

-- value.encode('utf-16le')
unfoldable pub utf16_encode : List ℕ → Result (List ℕ)
utf16_encode [] = ok []
utf16_encode (c ∷ cs) = do bs ← utf16_char c; rest ← utf16_encode cs; ok (bs ++ rest)

-- data.decode('utf-16le') of two bytes.
unfoldable pub utf16_decode_unit : List ℕ → Result (List ℕ)
utf16_decode_unit (a ∷ b ∷ []) =
    let c = a + 256 * b in if is_surrogate c then err unicode_error else ok (c ∷ [])
utf16_decode_unit _ = err unicode_error
