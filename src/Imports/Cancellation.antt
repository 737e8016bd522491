-- ===== src/Imports/Cancellation.antt =====
-- src/application/use-cases/cancel-import.use-case.ts and get-import-status.use-case.ts, over the
-- import repository.
mod Examples
use high_throughput_transact.Base.{◌⊎◌, Result-cases, err, inl, inr, ap}
use high_throughput_transact.Base.{
  ℕ, ◌≡◌, refl, sym, ◌∙◌, ◌≢◌, Bool, true, false, Option, none, some, if◌then◌else◌, ok, pure,
  throw, ◌>>=◌,
}
use high_throughput_transact.Js.{Js}
use high_throughput_transact.Domain.ImportStatus.{ImportStatus, is_terminal}
use high_throughput_transact.Domain.Errors.{
  Thrown, import_not_found, import_already_finished, raise,
}
use high_throughput_transact.Database.Table.{find-update_ne}
use high_throughput_transact.Database.World.{ImportRow, Tables, World, Db}
use high_throughput_transact.Database.World.Contracts.{
  Ensures, Any, Ensures-pure, Ensures-current_time, Ensures-statement, Ensures-bind,
  Ensures-transaction, Ensures-update, Ensures-rethrow,
}
use high_throughput_transact.Database.ImportRepository.{
  find_import, find_by_id, request_cancellation, flag_found, flag_import, set_cancelling,
  keep_not_found,
}

is_cancelling : ImportStatus → Bool
is_cancelling ImportStatus.cancelling = true
is_cancelling _ = false

open_status : (s u : ImportStatus) → is_terminal s ≡ true → is_terminal u ≡ false → u ≢ s
open_status s u t f e = cc

module _ {js : Js} where
  unfoldable pub cancel_import : ℕ → Db js ImportStatus
  unfolding is_cancelling
  cancel_import import_id = request_cancellation import_id >>= λ status.
      if is_cancelling status then pure status else raise (import_already_finished import_id status)

  -- `GetImportStatusUseCase.execute`
  found_or_throw : ℕ → Option ImportRow → Db js ImportRow
  found_or_throw import_id none = raise (import_not_found import_id)
  found_or_throw import_id (some r) = pure r

  unfoldable pub get_import_status : ℕ → Db js ImportRow
  unfolding found_or_throw
  get_import_status import_id = find_by_id import_id >>= found_or_throw import_id

  -- The row of one import stays as it is.
  abbrev Stays : ℕ → ImportRow → Tables js → Type 0
  Stays k r t = find_import k t.imports ≡ some r

  raise-Stays :
      {A : Type 0} (k : ℕ) (r : ImportRow) (e : Thrown) (Q : A → Type 0)
      → Ensures (Stays k r) (throw e) Q
  raise-Stays k r e Q = record { keeps = λ w i. i; returns = λ w i a h. cc }

  set_cancelling-Stays :
      (import_id k : ℕ) (r : ImportRow)
      → k ≢ import_id
      → Ensures (Stays k r) (set_cancelling {js = js} import_id) Any
  unfolding set_cancelling
  set_cancelling-Stays import_id k r ne = Ensures-bind _ _ Any Any Ensures-current_time λ now n.
      Ensures-bind _ _ Any Any
        (Ensures-update _ (λ t i.
          find-update_ne (λ (x : ImportRow). x.id) import_id k _ t.imports (λ x. refl) ne ∙ i))
        λ u n. Ensures-bind _ _ Any Any (Ensures-update _ (λ t i. i)) λ u n. Ensures-pure _ Any tt

  flag-Stays :
      (import_id k : ℕ) (r : ImportRow) (s : ImportStatus)
      → is_terminal r.status ≡ true
      → (import_id ≡ k → s ≡ r.status)
      → Ensures (Stays k r) (flag_import {js = js} import_id s) Any
  unfolding flag_import is_terminal
  flag-Stays import_id k r ImportStatus.completed t h = Ensures-pure _ Any tt
  flag-Stays import_id k r ImportStatus.failed t h = Ensures-pure _ Any tt
  flag-Stays import_id k r ImportStatus.cancelled t h = Ensures-pure _ Any tt
  flag-Stays import_id k r ImportStatus.cancelling t h = Ensures-pure _ Any tt
  flag-Stays import_id k r ImportStatus.pending t h =
      set_cancelling-Stays import_id k r
        (λ e. open_status r.status ImportStatus.pending t refl (h (sym e)))
  flag-Stays import_id k r ImportStatus.processing t h =
      set_cancelling-Stays import_id k r
        (λ e. open_status r.status ImportStatus.processing t refl (h (sym e)))

  found-Stays :
      (import_id k : ℕ) (r : ImportRow) (o : Option ImportRow)
      → is_terminal r.status ≡ true
      → (import_id ≡ k → o ≡ some r)
      → Ensures (Stays k r) (flag_found {js = js} import_id o) Any
  unfolding flag_found
  found-Stays import_id k r none t h = raise-Stays k r _ Any
  found-Stays import_id k r (some x) t h =
      flag-Stays import_id k r x.status t (λ e. let p = h e in cc)

  request-Stays :
      (import_id k : ℕ) (r : ImportRow)
      → is_terminal r.status ≡ true
      → Ensures (Stays k r) (request_cancellation {js = js} import_id) Any
  unfolding request_cancellation
  request-Stays import_id k r t = Ensures-rethrow {I = Stays k r} _ keep_not_found Any (
      Ensures-transaction {I = Stays k r} _ Any (
        Ensures-bind {I = Stays k r} _ _ (λ (o : Option ImportRow). import_id ≡ k → o ≡ some r) Any
          (Ensures-statement {I = Stays k r} _ _ (λ t i. i) (λ t i a e same. cc))
          λ o q. found-Stays import_id k r o t q))

  -- An import that has completed, failed or been cancelled stays exactly as it is whatever import a
  -- client asks to cancel and whatever the connection does; and the request says that its import is
  -- being cancelled, or throws.
  pub cancel_import-terminal :
      (import_id k : ℕ) (w : World js) (r : ImportRow)
      → is_terminal r.status ≡ true
      → find_import k w.tables.imports ≡ some r
      → (find_import k (cancel_import import_id w).1.tables.imports ≡ some r)
        × (((cancel_import import_id w).0 ≡ ok ImportStatus.cancelling)
            ⊎ ((e : Thrown) × ((cancel_import import_id w).0 ≡ err e)))
  unfolding cancel_import is_cancelling
  cancel_import-terminal import_id k w r t h = (whole.keeps w h, replied)
    where
      settled :
          (s : ImportStatus)
          → Ensures
              (Stays k r)
              (if is_cancelling s then pure s else raise (import_already_finished import_id s))
              (λ a. a ≡ ImportStatus.cancelling)
      settled ImportStatus.cancelling = Ensures-pure _ _ refl
      settled ImportStatus.pending = raise-Stays k r _ _
      settled ImportStatus.processing = raise-Stays k r _ _
      settled ImportStatus.completed = raise-Stays k r _ _
      settled ImportStatus.failed = raise-Stays k r _ _
      settled ImportStatus.cancelled = raise-Stays k r _ _

      whole : Ensures (Stays k r) (cancel_import import_id) (λ a. a ≡ ImportStatus.cancelling)
      whole = Ensures-bind _ _ Any _ (request-Stays import_id k r t) λ s n. settled s

      replied :
          ((cancel_import import_id w).0 ≡ ok ImportStatus.cancelling)
          ⊎ ((e : Thrown) × ((cancel_import import_id w).0 ≡ err e))
      replied = elim (Result-cases (cancel_import import_id w).0) [
        | inl (s, e) ↦
            inl (let same : s ≡ ImportStatus.cancelling = whole.returns w h s e in e ∙ ap ok same)
        | inr (x, e) ↦ inr (x, e)
      ]
