-- ===== src/Processing/Store/Stored.antt =====
-- What a run of the loop over the lines leaves in the database.
use high_throughput_transact.Base.{
  ℕ, ◌+◌, ◌<◌, ◌≡◌, refl, sym, subst, ◌⊎◌, inl, inr, arith, true, false, length, List, [], ◌∷◌,
  ◌++◌, All, none, some, Result, ok, err,
}
use high_throughput_transact.Js.{Js}
use high_throughput_transact.Js.Strings.{Text}
use high_throughput_transact.Domain.Errors.{Thrown}
use high_throughput_transact.Database.JobRepository.{ClaimedJob}
use high_throughput_transact.Database.TransactionRepository.{
  PersistBatchInput, BatchPersistResult, persist_batch,
}
use high_throughput_transact.Processing.Ports.{FileLocation, ScoringInput, Settings}
use high_throughput_transact.Processing.Progress.{begin, pending_size}
use high_throughput_transact.Processing.ImportFile.{Run, import_lines}
use high_throughput_transact.Processing.ImportFile.Steps.{Observed}
use high_throughput_transact.Processing.ImportFile.Sent.{entries, scores, rejects}
use high_throughput_transact.Processing.ImportFile.Conservation.{import_lines-conserves}
use high_throughput_transact.Processing.ImportFile.Keeps.{import_lines-Keeps}
use high_throughput_transact.Processing.Store.{
  Store, Outside, spend, on_world, note_sent, persist_on_world, store_ports,
}
use high_throughput_transact.Processing.Store.Contracts.{store_ports-PortsKeep}
use high_throughput_transact.Processing.Store.Landed.{
  has_row, HasRejection, AllLanded, AllLanded-Sound, landed_scores, landed_rejects,
}

-- `provider ?? ''`
abbrev pub fallback_of : FileLocation → Text
fallback_of file = elim file.provider [ none ↦ [] | some p ↦ p ]

module _ {js : Js} (outside : Outside js) where
  noted :
      (i : PersistBatchInput js) (s : Store js) (x : Result Thrown BatchPersistResult)
      → ((r : BatchPersistResult) → x ≡ ok r → (note_sent outside x i s).sent ≡ s.sent ++ i ∷ [])
        × ((e : Thrown) → x ≡ err e → (note_sent outside x i s).sent ≡ s.sent)
  unfolding note_sent
  noted i s (ok r) = (λ q h. refl, λ e h. cc)
  noted i s (err e) = (λ q h. cc, λ e h. refl)

  store_ports-Observed : Observed (store_ports outside) (λ s. s.sent)
  unfolding store_ports persist_on_world on_world spend
  store_ports-Observed = record {
    persisted = λ i s r h. (noted i _ (persist_batch i s.world).0).0 r h;
    not_persisted = λ i s e h. (noted i _ (persist_batch i s.world).0).1 e h;
    scoring = λ is s. refl;
    renewing = λ a b c s. refl;
    looking = λ a s. refl;
    sleeping = λ n s. refl;
    signalling = λ x s. refl;
  }

  -- From a store without acknowledged batches and with a limit of at least one, when the loop over
  -- the lines and the last flush return over the database, whatever the connection did on the way,
  -- every valid line that was read has a row with its provider and its transaction id among the
  -- stored transactions; every other line that is not blank has its rejection, with its line number,
  -- among the stored rejections of the import. The lines read are all lines of the file, as many as
  -- the loop has counted, or, where a cancellation was seen, all lines before the one that it had
  -- counted last.
  pub import_lines-stored :
      (settings : Settings) (job : ClaimedJob) (file : FileLocation) (limit now : ℕ) (s : Store js)
      → 0 < limit
      → s.sent ≡ []
      → let start : Run js (Store js) = record {
        outer = s;
        progress = begin (record { limit = limit; available = limit; waiters = [] }) now;
      } in
        let (result, end) = import_lines (store_ports outside) settings job file start in
        result ≡ ok tt
        → (read : List Text) × (unread : List Text) × (read ++ unread
            ≡ outside.lines file.storage_path)
          × (((end.progress.was_cancelled ≡ false)
                × (unread ≡ [])
                × (end.progress.line_number ≡ length read))
              ⊎ ((end.progress.was_cancelled ≡ true)
                  × (0 < length unread)
                  × (end.progress.line_number ≡ length read + 1)))
          × All
              (λ (x : ScoringInput js). has_row x end.outer.world.tables.transactions ≡ true)
              (scores (entries (fallback_of file) 0 read))
          × All
              (HasRejection job.import_id end.outer.world.tables.rejections)
              (rejects (entries {js = js} (fallback_of file) 0 read))
  unfolding store_ports begin pending_size
  import_lines-stored settings job file limit now s positive fresh h =
      let start : Run js (Store js) = record {
        outer = s;
        progress = begin (record { limit = limit; available = limit; waiters = [] }) now;
      } in
      let ports = store_ports outside in
      let c =
        import_lines-conserves ports (λ s. s.sent) store_ports-Observed job settings file limit now
          s positive fresh h in
      let end = (import_lines ports settings job file start).1.outer in
      let tables = end.world.tables in
      let kept =
        (import_lines-Keeps ports settings job (λ s. AllLanded s.sent s.world.tables)
            (store_ports-PortsKeep outside AllLanded AllLanded-Sound) file).after
          start (subst (λ sent. AllLanded sent s.world.tables) (sym fresh) tt, refl) in
      (
        c.read,
        c.unread,
        c.split,
        elim c.consumed [
          | inl (going, none_left, counted) ↦ inl (going, none_left, omega (arith, counted))
          | inr (seen, left, counted) ↦ inr (seen, left, omega (arith, counted))
        ],
        subst (All (λ (x : ScoringInput js). has_row x tables.transactions ≡ true)) c.scored
            (landed_scores end.sent tables kept.0),
        subst (All (HasRejection job.import_id tables.rejections)) c.rejected
            (landed_rejects job.import_id _ end.sent tables c.batches kept.0),
      )
