-- ===== src/Cursor/Laws.antt =====
-- What a loop over a cursor yields.
use ignite_python_thin_clien.Base.{
  ℕ, zero, suc, ◌+◌, ◌<◌, ◌≡◌, arith, Bool, true, false, List, [], ◌∷◌, ◌++◌, length, length-append,
  some, ℤ,
}
use ignite_python_thin_clien.Result.{Result, ok, Error, ◌>>=◌, >>=-eq-ok}
use ignite_python_thin_clien.Cursor.{
  PageResult, page, Cursor, next_row, process_page_response, next_page, next, drain,
}

module _ {A : Type 0} where
  -- The pages that are still to come, none of which is empty: all but the last say that there are
  -- more. The rows of them all are the second list.
  pub data Pages : List (PageResult A) → Bool → List A → Type 0 where
    last : Pages [] false []
    then_page :
        {server : List (PageResult A)} {m : Bool} {rest : List A} (r : A) (rs : List A)
        → Pages server m rest
        → Pages (page (r ∷ rs) m ∷ server) true ((r ∷ rs) ++ rest)

  abbrev pub cursor_at : List A → Bool → ℤ → Cursor A
  cursor_at rs m cid = record { rows = some rs; more = m; cursor_id = cid }

module _ {A B : Type 0} (unwrap : A → Result B) where
  unfoldable pub unwrap_rows : List A → Result (List B)
  unwrap_rows [] = ok []
  unwrap_rows (r ∷ rs) = do v ← unwrap r; vs ← unwrap_rows rs; ok (v ∷ vs)

  -- When no page that comes is empty, all are received, all but the last say that there are more,
  -- and every row is unwrapped without an error, a loop over the cursor ends. It yields the rows of the
  -- page at hand and then those of every page, each once, in order and unwrapped, and stops with
  -- nothing left. One round for each row and one more are enough.
  pub drain_all :
      (raised : Error) (cid : ℤ) (fuel : ℕ) {server : List (PageResult A)} {m : Bool}
      {rest : List A}
      → Pages server m rest
      → (rs : List A) (vs : List B) → unwrap_rows (rs ++ rest) ≡ ok vs
      → length rs + length rest < fuel
      → drain unwrap fuel raised server (cursor_at rs m cid) ≡ some (ok vs, cursor_at [] false cid)
  unfolding drain next next_page process_page_response next_row unwrap_rows
  drain_all raised cid zero ps rs vs u h = absurd (omega arith)
  drain_all raised cid (suc fuel) {rest = rest} ps (r ∷ rs) vs u h =
      let (v, e, u') = >>=-eq-ok (unwrap r) _ u in
      let (ws, f, last_step) = >>=-eq-ok (unwrap_rows (rs ++ rest)) _ u' in
      let same : v ∷ ws ≡ vs = cc last_step in
      rw (e, drain_all raised cid fuel ps rs ws f (omega arith), same)
  drain_all raised cid (suc fuel) last [] vs u h = let same : [] ≡ vs = cc u in rw same
  drain_all raised cid (suc fuel) (then_page {rest = rest} r rs ps) [] vs u h =
      let (v, e, u') = >>=-eq-ok (unwrap r) _ u in
      let (ws, f, last_step) = >>=-eq-ok (unwrap_rows (rs ++ rest)) _ u' in
      let same : v ∷ ws ≡ vs = cc last_step in
      rw (e, drain_all raised cid fuel ps rs ws f (omega (arith, length-append rs rest)), same)

  -- An empty page ends the loop, whatever it says of more pages and whatever pages follow, if the
  -- rows at hand are unwrapped without an error.
  pub drain_empty_page :
      (raised : Error) (cid : ℤ) (m : Bool) (server : List (PageResult A)) (rs : List A)
      (vs : List B) (fuel : ℕ)
      → unwrap_rows rs ≡ ok vs
      → length rs < fuel
      → drain unwrap fuel raised (page [] m ∷ server) (cursor_at rs true cid)
        ≡ some (ok vs, cursor_at [] m cid)
  unfolding drain next next_page process_page_response next_row unwrap_rows
  drain_empty_page raised cid m server rs vs zero u h = absurd (omega arith)
  drain_empty_page raised cid m server [] vs (suc fuel) u h = let same : [] ≡ vs = cc u in rw same
  drain_empty_page raised cid m server (r ∷ rs) vs (suc fuel) u h =
      let (v, e, u') = >>=-eq-ok (unwrap r) _ u in
      let (ws, f, last_step) = >>=-eq-ok (unwrap_rows rs) _ u' in
      let same : v ∷ ws ≡ vs = cc last_step in
      rw (e, drain_empty_page raised cid m server rs ws fuel f (omega arith), same)
