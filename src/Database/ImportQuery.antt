-- ===== src/Database/ImportQuery.antt =====
-- `getRejectedRecords` of src/infrastructure/repository/import-query.ts. A cursor is the id of a row; no
-- id is empty.
pub mod Order
pub mod Members
pub mod Paging
mod Examples
use high_throughput_transact.Base.{
  ℕ, ◌+◌, Bool, true, ◌&&◌, Option, none, some, List, [], ◌∷◌, ltb, leb, ◌==◌, if◌then◌else◌,
  length, take, keep, ok, pure, throw, ◌>>=◌,
}
use high_throughput_transact.Js.{Js}
use high_throughput_transact.Domain.Errors.{object, plain}
use high_throughput_transact.Database.World.{RejectedRow, Db, statement, wrapped}

pub record RejectedRecordPage : Type 0 where
  pub items : List RejectedRow
  pub next_cursor : Option ℕ

-- `ORDER BY id ASC`
abbrev pub insert_row : RejectedRow → List RejectedRow → List RejectedRow
insert_row r [] = r ∷ []
insert_row r (x ∷ xs) = if leb r.id x.id then r ∷ x ∷ xs else x ∷ insert_row r xs

abbrev pub sort_rows : List RejectedRow → List RejectedRow
sort_rows [] = []
sort_rows (r ∷ rs) = insert_row r (sort_rows rs)

-- `cursor ? { id: { gt: cursor } } : {}`
abbrev pub is_after : Option ℕ → RejectedRow → Bool
is_after none r = true
is_after (some c) r = ltb c r.id

abbrev pub matches : ℕ → Option ℕ → RejectedRow → Bool
matches import_id cursor r = r.import_id == import_id && is_after cursor r

-- `items[items.length - 1].id`
abbrev pub last_id : List RejectedRow → Option ℕ
last_id [] = none
last_id (r ∷ []) = some r.id
last_id (r ∷ x ∷ xs) = last_id (x ∷ xs)

-- The page of the rows that were found; `none` where the last item is read and there is none.
unfoldable pub page_of : ℕ → List RejectedRow → Option RejectedRecordPage
page_of limit rows =
    if ltb limit (length rows)
    then elim (last_id (take limit rows)) [
      | none ↦ none
      | some c ↦ some (record { items = take limit rows; next_cursor = some c })
    ]
    else some (record { items = rows; next_cursor = none })

unfoldable pub find_page : ℕ → Option ℕ → ℕ → List RejectedRow → Option RejectedRecordPage
unfolding page_of
find_page import_id cursor limit rows =
    page_of limit (take (limit + 1) (sort_rows (keep (matches import_id cursor) rows)))

module _ {js : Js} where
  unfoldable pub return_page : Option RejectedRecordPage → Db js RejectedRecordPage
  return_page none =
      throw (object none none (some "Cannot read properties of undefined (reading 'id')") plain)
  return_page (some p) = pure p

  unfoldable pub get_rejected_records : ℕ → Option ℕ → ℕ → Db js RejectedRecordPage
  unfolding find_page return_page
  get_rejected_records import_id cursor limit =
      wrapped "ImportQuery.getRejectedRecords"
        (statement (λ t. (ok (find_page import_id cursor limit t.rejections), t)) >>= return_page)
