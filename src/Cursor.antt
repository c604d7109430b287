-- ===== src/Cursor.antt =====
-- The cursors of pyignite/cursors.py: `ScanCursor`, `SqlCursor` and, behind its header row,
-- `SqlFieldsCursor`. What the server answers to the request for a page is a parameter.
pub mod Laws
use ignite_python_thin_clien.Base.{
  ℕ, zero, suc, Bool, true, false, ◌&&◌, List, [], ◌∷◌, if◌then◌else◌, Option, none, some, ℤ, eq_ℤ,
  pos, not,
}
use ignite_python_thin_clien.Result.{Result, ok, err, Error, cache_error, stop_iteration, ◌>>=◌}

-- `result.status != 0`, or `result.value`.
pub data PageResult (A : Type 0) : Type 0 where
  failed : PageResult A
  page : List A → Bool → PageResult A

-- What is left of `data`, once a page has been received, `more` and `cursor_id`.
pub record Cursor (A : Type 0) : Type 0 where
  pub rows : Option (List A)
  pub more : Bool
  pub cursor_id : ℤ

module _ {A : Type 0} where
  -- _finalize_init(result) of the cursor `cid`; `raised` is CacheError or SQLError.
  unfoldable pub finalize_init : Error → ℤ → PageResult A → Result (Cursor A)
  finalize_init raised cid failed = err raised
  finalize_init raised cid (page rs m) = ok (record { rows = some rs; more = m; cursor_id = cid })

  -- _process_page_response(result)
  unfoldable pub process_page_response : Error → PageResult A → Cursor A → Result (Cursor A)
  process_page_response raised failed c = err raised
  process_page_response raised (page rs m) c = ok (record c { rows = some rs; more = m })

  -- next(self.data), where there is a page.
  unfoldable pub next_row : Cursor A → Result A × Cursor A
  next_row c = elim c.rows [
    | none ↦ (err stop_iteration, c)
    | some rs ↦ elim rs [
      | [] ↦ (err stop_iteration, c)
      | r ∷ rs' ↦ (ok r, record c { rows = some rs' })
    ]
  ]

  -- Whether close() sends a request.
  unfoldable pub closes_resource : Bool → Cursor A → Bool
  closes_resource connected c = connected && (not (eq_ℤ c.cursor_id (pos 0)) && c.more)

-- `unwrap` is what `unwrap_binary` does to a row.
module _ {A B : Type 0} (unwrap : A → Result B) where
  -- What is received in answer to a request for a page, and what is still to come.
  unfoldable pub next_page :
      Error → List (PageResult A) → Cursor A → Result B × Cursor A × List (PageResult A)
  unfolding process_page_response next_row
  next_page raised [] c = (err raised, c, [])
  next_page raised (p ∷ server) c = elim (process_page_response raised p c) [
    | err e ↦ (err e, c, server)
    | ok c' ↦ let got = next_row c' in (got.0 >>= unwrap, got.1, server)
  ]

  -- __next__(): a page is asked for when the last one is used up and there are more. The
  -- StopIteration of an empty page is not caught.
  unfoldable pub next :
      Error → List (PageResult A) → Cursor A → Result B × Cursor A × List (PageResult A)
  unfolding next_row next_page
  next raised server c = elim c.rows [
    | none ↦ (err stop_iteration, c, server)
    | some rs ↦ elim rs [
      | r ∷ rs' ↦ (unwrap r, record c { rows = some rs' }, server)
      | [] ↦ if c.more then next_page raised server c else (err stop_iteration, c, server)
    ]
  ]

  -- The rows of a `for` loop over the cursor, and the state that it is left in.
  unfoldable pub drain :
      ℕ → Error → List (PageResult A) → Cursor A → Option (Result (List B) × Cursor A)
  unfolding next
  drain zero raised server c = none
  drain (suc fuel) raised server c =
      let step = next raised server c in
      elim step.0 [
        | ok r ↦ elim (drain fuel raised step.2 step.1) [
          | none ↦ none
          | some (ok rs, c') ↦ some (ok (r ∷ rs), c')
          | some (err e, c') ↦ some (err e, c')
        ]
        | err stop_iteration ↦ some (ok [], step.1)
        | err e ↦ some (err e, step.1)
      ]
