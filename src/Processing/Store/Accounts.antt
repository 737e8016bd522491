-- ===== src/Processing/Store/Accounts.antt =====
-- The accounting of the imports through a whole run over the database.
use high_throughput_transact.Base.{ℕ, ◌≡◌, ap, List, All, Result, ok, err}
use high_throughput_transact.Js.{Js}
use high_throughput_transact.Domain.Errors.{Thrown}
use high_throughput_transact.Database.Table.{All-update_where}
use high_throughput_transact.Database.World.{ImportRow, Tables, World}
use high_throughput_transact.Database.JobRepository.{ClaimedJob}
use high_throughput_transact.Database.TransactionRepository.{
  PersistBatchInput, BatchPersistResult, persist_batch,
}
use high_throughput_transact.Database.TransactionRepository.Batches.{
  Balanced, persist_batch-Balanced,
}
use high_throughput_transact.Processing.Ports.{Settings}
use high_throughput_transact.Processing.ImportFile.{execute}
use high_throughput_transact.Processing.ImportFile.Keeps.{execute-Keeps}
use high_throughput_transact.Processing.Store.{Store, Outside, store_ports}
use high_throughput_transact.Processing.Store.Contracts.{
  counts, Settled, AfterPersist, Sound, store_ports-PortsKeep,
}

module _ {js : Js} where
  abbrev pub AllBalanced : Tables js → Type 0
  AllBalanced t = All (Balanced t) t.imports

  Balanced-counts :
      (t : Tables js) (r q : ImportRow) → counts q ≡ counts r → Balanced t r → Balanced t q
  unfolding Balanced
  Balanced-counts t r q e b =
      let id : q.id ≡ r.id = ap (λ (c : ℕ × ℕ × ℕ × ℕ × ℕ). c.0) e in
      let processed : q.processed_count ≡ r.processed_count =
        ap (λ (c : ℕ × ℕ × ℕ × ℕ × ℕ). c.1) e in
      let accepted : q.accepted_count ≡ r.accepted_count = ap (λ (c : ℕ × ℕ × ℕ × ℕ × ℕ). c.2) e in
      let rejected : q.rejected_count ≡ r.rejected_count = ap (λ (c : ℕ × ℕ × ℕ × ℕ × ℕ). c.3) e in
      let duplicates : q.duplicate_count ≡ r.duplicate_count =
        ap (λ (c : ℕ × ℕ × ℕ × ℕ × ℕ). c.4) e in
      rw (id, processed, accepted, rejected, duplicates) b

  AllBalanced-Settled : Settled AllBalanced
  unfolding Balanced
  AllBalanced-Settled = record {
    jobs = λ t rows b. b;
    imports = λ t p f same b.
        All-update_where (Balanced t) p f t.imports (λ r e h. Balanced-counts t r (f r) (same r) h)
          b;
  }

  by_result :
      (i : PersistBatchInput js) (sent : List (PersistBatchInput js))
      (x : Result Thrown BatchPersistResult × World js)
      → AllBalanced x.1.tables
      → AfterPersist (λ sent. AllBalanced) sent i x
  by_result i sent (ok r, w) b = b
  by_result i sent (err e, w) b = b

  AllBalanced-Sound : Sound (λ (sent : List (PersistBatchInput js)). AllBalanced)
  AllBalanced-Sound = record {
    settled = λ sent. AllBalanced-Settled;
    persists =
        λ sent i w d b. by_result i sent (persist_batch i w) (persist_batch-Balanced i w d b);
  }

  -- The whole run of a job over the database, however it ends: completed, cancelled, failed or
  -- interrupted, and whatever the connection, the scoring and the file do. It keeps the accounting
  -- of every import: the accepted and the rejected counter are the numbers of stored transactions
  -- and rejections of the import, and the processed counter is the sum of accepted, duplicate and
  -- rejected.
  pub execute-Balanced :
      (outside : Outside js) (settings : Settings) (job : ClaimedJob) (s : Store js)
      → All (Balanced s.world.tables) s.world.tables.imports
      → let after = (execute (store_ports outside) settings job s).1.world.tables in
        All (Balanced after) after.imports
  execute-Balanced outside settings job s b =
      (execute-Keeps (store_ports outside) settings job _
          (store_ports-PortsKeep outside (λ sent. AllBalanced) AllBalanced-Sound)).after
        s b
