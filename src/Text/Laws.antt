-- ===== src/Text/Laws.antt =====
-- UTF-8 decoding undoes encoding.
use ignite_python_thin_clien.Base.{
  ℕ, zero, suc, ◌+◌, ◌/◌, ◌%◌, ◌<◌, ◌≤◌, ◌≡◌, refl, arith, List, [], ◌∷◌, ◌++◌, length,
  length-append, lt→ltb, ltb, All, Bool-cases, inl, inr,
}
use ignite_python_thin_clien.Result.{ok}
use ignite_python_thin_clien.Text.{
  IsScalar, utf8_char, utf8_encode, utf8_step, utf8_loop, utf8_decode,
}

-- The head and the tail of what one code point is encoded as.
pub utf8_step-char :
    (c : ℕ)
    → IsScalar c
    → (a : ℕ) × (bs : List ℕ) × (utf8_char c ≡ ok (a ∷ bs))
      × ((rest : List ℕ) → utf8_step a (bs ++ rest) ≡ ok (c, rest))
unfolding utf8_char utf8_step
utf8_step-char c h = elim (Bool-cases (ltb c 0x80)) [
  | inl e ↦ (c, [], ground arith, λ rest. ground arith)
  | inr n ↦ elim (Bool-cases (ltb c 0x800)) [
    | inl e ↦ (192 + c / 64, (128 + c % 64) ∷ [], ground arith, λ rest. ground arith)
    | inr m ↦ elim (Bool-cases (ltb c 0x10000)) [
      | inl e ↦ (
        224 + c / 4096,
        (128 + c / 64 % 64) ∷ (128 + c % 64) ∷ [],
        ground arith,
        λ rest. ground arith,
      )
      | inr k ↦ (
        240 + c / 262144,
        (128 + c / 4096 % 64) ∷ (128 + c / 64 % 64) ∷ (128 + c % 64) ∷ [],
        ground arith,
        λ rest. ground arith,
      )
    ]
  ]
]

-- What a string is encoded as, and that it is decoded by as many rounds as it has bytes.
abbrev Encodes : List ℕ → List ℕ → Type 0
Encodes cs bs =
    (utf8_encode cs ≡ ok bs)
    × ((fuel : ℕ) → length bs ≤ fuel → utf8_loop fuel bs ≡ ok cs)
    × (length cs ≤ length bs)

utf8-Encodes : (cs : List ℕ) → All IsScalar cs → (bs : List ℕ) × Encodes cs bs
unfolding utf8_encode utf8_loop
utf8-Encodes [] h = ([], (refl, (λ fuel f. refl), omega arith))
utf8-Encodes (c ∷ cs) (hc, hcs) =
    let (rest, enc) = utf8-Encodes cs hcs in
    let (e, d, le) = enc in
    let (a, bs, p, q) = utf8_step-char c hc in
    let q' = q rest in
    (a ∷ (bs ++ rest), (rw (p, e), decodes a bs rest q' d, omega (arith, length-append bs rest)))
  where
    decodes :
        (a : ℕ) (bs rest : List ℕ)
        → utf8_step a (bs ++ rest) ≡ ok (c, rest)
        → ((fuel : ℕ) → length rest ≤ fuel → utf8_loop fuel rest ≡ ok cs)
        → (fuel : ℕ) → length (a ∷ (bs ++ rest)) ≤ fuel
        → utf8_loop fuel (a ∷ (bs ++ rest)) ≡ ok (c ∷ cs)
    decodes a bs rest q d zero f = absurd (omega arith)
    decodes a bs rest q d (suc fuel) f = rw (q, d fuel (omega (arith, length-append bs rest)))

-- Every string of scalar values is encoded, and decoding gives it back.
pub utf8_decode-encode :
    (cs : List ℕ)
    → All IsScalar cs
    → (bs : List ℕ) × (utf8_encode cs ≡ ok bs) × (utf8_decode bs ≡ ok cs) × (length cs ≤ length bs)
unfolding utf8_decode
utf8_decode-encode cs h =
    let (bs, enc) = utf8-Encodes cs h in
    let (e, d, le) = enc in (bs, e, d (length bs) (omega arith), le)

-- ASCII text is its own encoding.
pub utf8_encode-ascii : (cs : List ℕ) → All (λ c. c < 0x80) cs → utf8_encode cs ≡ ok cs
unfolding utf8_encode utf8_char
utf8_encode-ascii [] h = refl
utf8_encode-ascii (c ∷ cs) (hc, hcs) = rw (lt→ltb c 0x80 hc, utf8_encode-ascii cs hcs)
