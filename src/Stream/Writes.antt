-- ===== src/Stream/Writes.antt =====
-- Bytes that are written one after the other are written at once, wherever the stream stands.
use ignite_python_thin_clien.Base.{
  ℕ, zero, suc, ◌+◌, ◌-◌, ◌≡◌, refl, sym, ap, ◌∙◌, arith, List, [], ◌∷◌, ◌++◌, length, take, drop,
  replicate, length-append, length-replicate, take-append, drop-append, drop-drop, append-nil,
  append_assoc,
}
use ignite_python_thin_clien.Result.{Result, ok}
use ignite_python_thin_clien.Stream.{Stream, overwrite, write}
use ignite_python_thin_clien.Stream.Laws.{stream_at, write_end}

-- What stands in front of a position, once the gap is filled.
abbrev before : List ℕ → ℕ → List ℕ
before buf p = take p buf ++ replicate (p - length buf) 0

length-take_any : (n : ℕ) (xs : List ℕ) → length (take n xs) + (n - length xs) ≡ n
length-take_any zero xs = omega arith
length-take_any (suc n) [] = omega arith
length-take_any (suc n) (x ∷ xs) = omega (arith, length-take_any n xs)

length-before : (buf : List ℕ) (p : ℕ) → length (before buf p) ≡ p
length-before buf p = omega (
  arith,
  length-append (take p buf) (replicate (p - length buf) 0),
  length-replicate {A = ℕ} (p - length buf) 0,
  length-take_any p buf,
)

-- Overwriting right behind a front that is as long as the position.
overwrite_behind :
    (front back bs : List ℕ) (p : ℕ)
    → p ≡ length front
    → overwrite (front ++ back) p bs ≡ front ++ (bs ++ drop (length bs) back)
unfolding overwrite
overwrite_behind front back bs p h =
    let none_added : p - length (front ++ back) ≡ 0 = omega (arith, h, length-append front back) in
    rw (
      none_added,
      take-append p front back h,
      append-nil front,
      ← drop-drop (length bs) p (front ++ back),
      drop-append p front back h,
    )

overwrite_twice :
    (buf a b : List ℕ) (p : ℕ)
    → overwrite (overwrite buf p a) (p + length a) b ≡ overwrite buf p (a ++ b)
overwrite_twice buf a b p =
    let front = before buf p ++ a in
    let back = drop (p + length a) buf in
    let once : overwrite buf p a ≡ front ++ back =
      unfold overwrite in sym (append_assoc (before buf p) a back) in
    let size : p + length a ≡ length front =
      omega (arith, length-append (before buf p) a, length-before buf p) in
    let last : p + length a + length b ≡ p + length (a ++ b) = omega (arith, length-append a b) in
    let joined : overwrite buf p (a ++ b)
        ≡ before buf p ++ ((a ++ b) ++ drop (p + length (a ++ b)) buf) =
      unfold overwrite in refl in
    rw (
      once,
      overwrite_behind front back b (p + length a) size,
      joined,
      drop-drop (length b) (p + length a) buf,
      last,
      append_assoc (before buf p) a (b ++ drop (p + length (a ++ b)) buf),
      append_assoc a b (drop (p + length (a ++ b)) buf),
    )

pub write-write : (s : Stream) (a b : List ℕ) → write (write s a) b ≡ write s (a ++ b)
unfolding write
write-write s [] b = refl
write-write s (x ∷ a) [] = rw (append-nil a) refl
write-write s (x ∷ a) (y ∷ b) = λ i. record {
  buffer = overwrite_twice s.buffer (x ∷ a) (y ∷ b) s.position i;
  position =
      (let e : s.position + length (x ∷ a) + length (y ∷ b)
              ≡ s.position + length (x ∷ (a ++ (y ∷ b))) =
            omega (arith, length-append a (y ∷ b)) in
          e)
        i;
}

-- What is written at the end of a stream is all that follows.
pub written_at_end :
    (pre bs : List ℕ) {r : Result Stream}
    → r ≡ ok (write (stream_at pre []) bs)
    → r ≡ ok (stream_at (pre ++ bs) [])
written_at_end pre bs h = h ∙ ap ok (write_end pre bs)
