-- ===== src/Types/String/Cut.antt =====
-- C strings: what is kept of text up to its first zero.
use ignite_python_thin_clien.Base.{
  ℕ, zero, suc, ◌+◌, ◌-◌, ◌<◌, ◌≤◌, ◌≡◌, refl, ap, ◌∙◌, arith, List, [], ◌∷◌, ◌++◌, length,
  replicate, All, length-append, length-replicate, ◌==◌, ltb, ◌⊎◌, ◌/◌, ◌%◌, Bool-cases, inl, inr,
  false,
}
use ignite_python_thin_clien.Result.{ok}
use ignite_python_thin_clien.Ctypes.{cut, assign_chars}
use ignite_python_thin_clien.Text.{IsScalar, utf8_char, utf8_encode, utf8_decode}
use ignite_python_thin_clien.Text.Laws.{utf8_decode-encode}

length-cut : (bs : List ℕ) → length (cut bs) ≤ length bs
unfolding cut
length-cut [] = omega arith
length-cut (b ∷ bs) = ground (arith, length-cut bs)

length-zeros : (n : ℕ) → length {A = ℕ} (replicate n 0) ≡ n
length-zeros n = length-replicate n 0

pub length-assign_chars : (bs : List ℕ) → length (assign_chars bs) ≡ length bs
unfolding assign_chars
length-assign_chars bs = omega (
  arith,
  length-append (cut bs) (replicate (length bs - length (cut bs)) 0),
  length-cut bs,
  length-zeros (length bs - length (cut bs)),
)

cut-zeros : (bs : List ℕ) (n : ℕ) → cut (cut bs ++ replicate n 0) ≡ cut bs
unfolding cut
cut-zeros [] zero = refl
cut-zeros [] (suc n) = refl
cut-zeros (b ∷ bs) n = elim (Bool-cases (b == 0)) [
  | inl h ↦ rw h (zeros_cut n)
  | inr h ↦ rw h (rw h (ap (λ l. b ∷ l) (cut-zeros bs n)))
]
  where
    zeros_cut : (n : ℕ) → cut (replicate n 0) ≡ []
    zeros_cut zero = refl
    zeros_cut (suc n) = refl

-- What is copied into the field is read back up to the first zero.
pub cut-assign_chars : (bs : List ℕ) → cut (assign_chars bs) ≡ cut bs
unfolding assign_chars
cut-assign_chars bs = cut-zeros bs (length bs - length (cut bs))

char_nonzero :
    (c : ℕ) → IsScalar c → 0 < c → (bs : List ℕ) × (utf8_char c ≡ ok bs) × All (λ b. 0 < b) bs
unfolding utf8_char
char_nonzero c h p = elim (Bool-cases (ltb c 0x80)) [
  | inl e ↦ (c ∷ [], ground arith, (p, tt))
  | inr n ↦ elim (Bool-cases (ltb c 0x800)) [
    | inl e ↦ ((192 + c / 64) ∷ (128 + c % 64) ∷ [], ground arith, (omega arith, (omega arith, tt)))
    | inr m ↦ elim (Bool-cases (ltb c 0x10000)) [
      | inl e ↦ (
        (224 + c / 4096) ∷ (128 + c / 64 % 64) ∷ (128 + c % 64) ∷ [],
        ground arith,
        (omega arith, (omega arith, (omega arith, tt))),
      )
      | inr k ↦ (
        (240 + c / 262144) ∷ (128 + c / 4096 % 64) ∷ (128 + c / 64 % 64) ∷ (128 + c % 64) ∷ [],
        ground arith,
        (omega arith, (omega arith, (omega arith, (omega arith, tt)))),
      )
    ]
  ]
]

cut-cons : (c : ℕ) (cs : List ℕ) → 0 < c → cut (c ∷ cs) ≡ c ∷ cut cs
unfolding cut
cut-cons c cs p = let seen : (c == 0) ≡ false = ground arith in rw seen

cut-append : (bs rest : List ℕ) → All (λ b. 0 < b) bs → cut (bs ++ rest) ≡ bs ++ cut rest
cut-append [] rest h = refl
cut-append (b ∷ bs) rest (hb, hbs) =
    cut-cons b (bs ++ rest) hb ∙ ap (λ l. b ∷ l) (cut-append bs rest hbs)

zero_or_pos : (c : ℕ) → (c ≡ 0) ⊎ (0 < c)
zero_or_pos zero = inl refl
zero_or_pos (suc c) = inr (omega arith)

encode-cons :
    (c : ℕ) (cs b y : List ℕ)
    → utf8_char c ≡ ok b
    → utf8_encode cs ≡ ok y
    → utf8_encode (c ∷ cs) ≡ ok (b ++ y)
unfolding utf8_encode
encode-cons c cs b y be ye = rw (be, ye)

encode_nul : utf8_char 0 ≡ ok (0 ∷ [])
unfolding utf8_char
encode_nul = refl

encode_cut_nul : (cs y : List ℕ) → utf8_encode (cut (0 ∷ cs)) ≡ ok (cut (0 ∷ y))
unfolding cut utf8_encode
encode_cut_nul cs y = refl

-- The bytes up to the first zero are the encoding of the text up to its first U+0000.
encode_cut_exists :
    (cs : List ℕ)
    → All IsScalar cs
    → (bs : List ℕ) × (utf8_encode cs ≡ ok bs) × (utf8_encode (cut cs) ≡ ok (cut bs))
encode_cut_exists [] h = ([], unfold utf8_encode in refl, unfold utf8_encode cut in refl)
encode_cut_exists (c ∷ cs) (hc, hcs) =
    let (y, ye, yc) = encode_cut_exists cs hcs in
    elim (zero_or_pos c) [
      | inl z ↦
          (0 ∷ y, rw z (encode-cons 0 cs (0 ∷ []) y encode_nul ye), rw z (encode_cut_nul cs y))
      | inr p ↦
          let (b, be, nonzero) = char_nonzero c hc p in
          (
            b ++ y,
            encode-cons c cs b y be ye,
            rw (cut-cons c cs p, cut-append b y nonzero) (encode-cons c (cut cs) b (cut y) be yc),
          )
    ]

encode-cut :
    (cs : List ℕ)
    → All IsScalar cs
    → (bs : List ℕ) → utf8_encode cs ≡ ok bs
    → utf8_encode (cut cs) ≡ ok (cut bs)
encode-cut cs h bs e = let (y, ye, yc) = encode_cut_exists cs h in let same : y ≡ bs = cc in cc

cut-IsScalar : (cs : List ℕ) → All IsScalar cs → All IsScalar (cut cs)
unfolding cut
cut-IsScalar [] h = tt
cut-IsScalar (c ∷ cs) (hc, hcs) = elim (Bool-cases (c == 0)) [
  | inl e ↦ rw e tt
  | inr n ↦ rw n (hc, cut-IsScalar cs hcs)
]

pub cut-nonzero : (cs : List ℕ) → All (λ c. 0 < c) cs → cut cs ≡ cs
unfolding cut
cut-nonzero [] h = refl
cut-nonzero (c ∷ cs) (hc, hcs) = cut-cons c cs hc ∙ ap (λ l. c ∷ l) (cut-nonzero cs hcs)

pub decode-cut :
    (cs bs : List ℕ) → All IsScalar cs → utf8_encode cs ≡ ok bs → utf8_decode (cut bs) ≡ ok (cut cs)
decode-cut cs bs h e =
    let (y, ye, yd, yl) = utf8_decode-encode (cut cs) (cut-IsScalar cs h) in
    let whole = encode-cut cs h bs e in let same : y ≡ cut bs = cc in cc
