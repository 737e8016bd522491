-- ===== src/Processing/ImportFile/Conservation.antt =====
-- What the loop of src/application/use-cases/process-import-file.use-case.ts sends to the database
-- when it comes to its end: a record or a rejection for each line that it has read, in order.
use high_throughput_transact.Base.{◌⊎◌, inl, inr}
use high_throughput_transact.Base.{
  ℕ, ◌+◌, ◌≤◌, ◌<◌, max, ◌≡◌, refl, sym, ap, ◌∙◌, subst, Bool, true, false, Option, none, some,
  List, [], ◌∷◌, ◌++◌, arith, All, length, ok, pure, ◌>>◌,
}
use high_throughput_transact.Js.{Js}
use high_throughput_transact.Js.Strings.{Text}
use high_throughput_transact.Domain.Errors.{Thrown}
use high_throughput_transact.Database.JobRepository.{ClaimedJob}
use high_throughput_transact.Database.TransactionRepository.{PersistBatchInput}
use high_throughput_transact.Processing.Ports.{FileLocation, Ports, Settings}
use high_throughput_transact.Processing.Progress.{Entry, classify_line, pending_size, begin}
use high_throughput_transact.Processing.Returns.{
  Returns, Returns-bind, Returns-at, Returns-err, Returns-weaken,
}
use mathlib.Core.List.{append-nil, append_assoc}
use high_throughput_transact.Processing.ImportFile.{
  Run, advance, flush, take_entry, settle_line, read_line, read_lines, import_lines,
}
use high_throughput_transact.Processing.ImportFile.Steps.{Observed}
use high_throughput_transact.Processing.ImportFile.Sent.{
  entries, scores, rejects, scored_of, rejected_of, Whole, cap, flush-Held,
}
use high_throughput_transact.Processing.ImportFile.Between.{
  Stands, Between, take_entry-Between, heartbeat-Between, check_cancelled-Between,
}

module _ {js : Js} {S : Type 0} (ports : Ports js S) (sent : S → List (PersistBatchInput js))
    (o : Observed ports sent) (job : ClaimedJob) (settings : Settings) where
  -- After a line: it is taken in, or the loop stops before it.
  abbrev AfterLine : List (Entry js) → ℕ → Text → Text → Bool → Run js S → Type 0
  AfterLine past n fallback_provider l true = Between ports sent o job settings past (n + 1) true
  AfterLine past n fallback_provider l false =
      Between ports sent o job settings (past ++ classify_line js l (n + 1) fallback_provider ∷ [])
        (n + 1) false

  settle_line-AfterLine :
      {past : List (Entry js)} (n : ℕ) {r : Run js S} (fallback_provider l : Text) (stop : Bool)
      → Between ports sent o job settings past (n + 1) false r
      → Returns
          (settle_line ports settings job fallback_provider l stop)
          r
          (AfterLine past n fallback_provider l)
  unfolding settle_line advance pending_size
  settle_line-AfterLine {past} n {r} fallback_provider l true (i, room) =
      Returns-bind (λ a. Between ports sent o job settings past (n + 1) true)
        (Returns-at tt (record r { progress = record (r.progress) { was_cancelled = true } }) refl
          (
            record {
              scored = i.scored;
              rejected = i.rejected;
              counted = i.counted;
              batches = i.batches;
              idle = i.idle;
              line_number = i.line_number;
              cancelled = refl;
            },
            room,
          ))
        λ u s j. Returns-at true s refl j
  settle_line-AfterLine {past} n {r} fallback_provider l false (i, room) = record {
    holds = λ a. taken.holds a;
  }
    where
      read : Text → ℕ → Entry js
      read l k = classify_line js l k fallback_provider

      taken :
          Returns
            (take_entry ports settings job (read l r.progress.line_number) >> pure false)
            r
            (AfterLine past n fallback_provider l)
      taken =
          Returns-bind
            (λ a. Between ports sent o job settings (past ++ read l (n + 1) ∷ []) (n + 1) false)
            (subst
              (λ k.
                Returns (take_entry ports settings job (read l r.progress.line_number)) r
                  (λ a. Between ports sent o job settings (past ++ read l k ∷ []) (n + 1) false))
              i.line_number
              (take_entry-Between ports sent o job settings (read l r.progress.line_number)
                (i, room)))
            λ u s j. Returns-at false s refl j

  read_line-AfterLine :
      {past : List (Entry js)} (n : ℕ) {r : Run js S} (fallback_provider l : Text)
      → Between ports sent o job settings past n false r
      → Returns
          (read_line ports settings job fallback_provider l)
          r
          (AfterLine past n fallback_provider l)
  unfolding read_line advance pending_size
  read_line-AfterLine {past} n {r} fallback_provider l (i, room) =
      Returns-bind (λ a. Between ports sent o job settings past (n + 1) false)
        (Returns-at tt
          (record r { progress = record (r.progress) { line_number = r.progress.line_number + 1 } })
          refl
          (
            record {
              scored = i.scored;
              rejected = i.rejected;
              counted = i.counted;
              batches = i.batches;
              idle = i.idle;
              line_number = ap (λ k. k + 1) i.line_number;
              cancelled = i.cancelled;
            },
            room,
          ))
        λ u s j.
          Returns-bind (λ a. Between ports sent o job settings past (n + 1) false)
            (heartbeat-Between ports sent o job settings j)
            λ u s j.
              Returns-bind (λ a. Between ports sent o job settings past (n + 1) false)
                (check_cancelled-Between ports sent o job settings j)
                λ stop s j. settle_line-AfterLine n fallback_provider l stop j

  -- The loop that has counted `n` lines has come to the end of the file, having read each line that
  -- it counted, or has seen a cancellation at the line after the last one that it read.
  abbrev pub Consumed : ℕ → ℕ → Bool → List Text → List Text → Type 0
  Consumed n counted was_cancelled read unread =
      ((was_cancelled ≡ false) × (unread ≡ []) × (counted ≡ n + length read))
      ⊎ ((was_cancelled ≡ true) × (0 < length unread) × (counted ≡ n + length read + 1))

  -- The loop has come to its end, or has stopped before a line because of a cancellation.
  record Stopped (past : List (Entry js)) (n : ℕ) (fallback_provider : Text) (ls : List Text)
      (r : Run js S) : Type 0 where
    read : List Text
    unread : List Text
    split : read ++ unread ≡ ls
    lines : ℕ
    held :
        Stands ports sent o job settings
          (past ++ entries fallback_provider n read)
          lines
          r.progress.was_cancelled
          r
    room : pending_size r.progress ≤ cap ports sent o job settings
    consumed : Consumed n lines r.progress.was_cancelled read unread

  as_it_is :
      {past : List (Entry js)} {n : ℕ} {c : Bool} {r : Run js S}
      → Stands ports sent o job settings past n c r
      → Stands ports sent o job settings (past ++ []) n r.progress.was_cancelled r
  as_it_is {past} {n} {c} {r} i =
      subst (λ c. Stands ports sent o job settings (past ++ []) n c r) (sym i.cancelled)
        (subst (λ es. Stands ports sent o job settings es n c r) (sym (append-nil past)) i)

  read_lines-Stopped :
      (fallback_provider : Text) (failure : Option Thrown) (ls : List Text) (past : List (Entry js))
      (n : ℕ) (r : Run js S)
      → Between ports sent o job settings past n false r
      → Returns
          (read_lines ports settings job fallback_provider failure ls)
          r
          (λ a. Stopped past n fallback_provider ls)
  unfolding read_lines
  read_lines-Stopped fallback_provider none [] past n r (i, room) = Returns-at tt r refl (record {
    read = [];
    unread = [];
    split = refl;
    lines = n;
    held = as_it_is i;
    room = omega (arith, room);
    consumed = inl (i.cancelled, refl, omega arith);
  })
  read_lines-Stopped fallback_provider (some e) [] past n r i = Returns-err e r refl
  read_lines-Stopped fallback_provider failure (l ∷ ls) past n r i =
      Returns-bind (AfterLine past n fallback_provider l)
        (read_line-AfterLine n fallback_provider l i)
        λ stop s j. rest stop s j (λ u k.
          read_lines-Stopped fallback_provider failure ls
            (past ++ classify_line js l (n + 1) fallback_provider ∷ []) (n + 1) u k)
    where
      entry : Entry js
      entry = classify_line js l (n + 1) fallback_provider

      rest :
          (stop : Bool) (s : Run js S)
          → AfterLine past n fallback_provider l stop s
          → ((u : Run js S)
              → Between ports sent o job settings (past ++ entry ∷ []) (n + 1) false u
              → Returns
                  (read_lines ports settings job fallback_provider failure ls)
                  u
                  (λ a. Stopped (past ++ entry ∷ []) (n + 1) fallback_provider ls))
          → Returns
              (elim stop [
                | true ↦ pure tt
                | false ↦ read_lines ports settings job fallback_provider failure ls
              ])
              s
              (λ a. Stopped past n fallback_provider (l ∷ ls))
      rest true s (j, room) go = Returns-at tt s refl (record {
        read = [];
        unread = l ∷ ls;
        split = refl;
        lines = n + 1;
        held = as_it_is j;
        room = omega (arith, room);
        consumed = inr (j.cancelled, omega arith, omega arith);
      })
      rest false s j go =
          Returns-weaken
            (λ a u k. record {
              read = l ∷ k.read;
              unread = k.unread;
              split = ap (λ z. l ∷ z) k.split;
              lines = k.lines;
              held =
                  subst
                    (λ es. Stands ports sent o job settings es k.lines u.progress.was_cancelled u)
                    (append_assoc past (entry ∷ []) (entries fallback_provider (n + 1) k.read))
                    k.held;
              room = k.room;
              consumed = elim k.consumed [
                | inl (going, none_left, counted) ↦ inl (going, none_left, omega (arith, counted))
                | inr (seen, left, counted) ↦ inr (seen, left, omega (arith, counted))
              ];
            })
            (go s j)

  -- What has been sent when the loop and the last flush return.
  pub record Imported (fallback_provider : Text) (ls : List Text) (r : Run js S) : Type 0 where
    pub read : List Text
    pub unread : List Text
    pub split : read ++ unread ≡ ls
    pub consumed : Consumed 0 r.progress.line_number r.progress.was_cancelled read unread
    pub scored : scored_of (sent r.outer) ≡ scores (entries {js = js} fallback_provider 0 read)
    pub rejected : rejected_of (sent r.outer) ≡ rejects (entries {js = js} fallback_provider 0 read)
    pub batches : All (Whole job.import_id (max settings.batch_size 1)) (sent r.outer)

  abbrev pub provider_of : FileLocation → Text
  provider_of file = elim file.provider [ none ↦ [] | some p ↦ p ]

  -- From an empty history, when the loop over the lines and the last flush return, the batches that
  -- the database has acknowledged hold, in order and once each, the record of every valid line that
  -- was read and the rejection, with its line number, of every other line that is not blank. The
  -- lines read are all lines of the file, as many as the loop has counted, or, where a cancellation
  -- was seen, all lines before the one that it had counted last. Each batch is of the import, has at
  -- most `max batch_size 1` records, and gives their number as the processed ones. The retries of
  -- `persistBatch` are included.
  pub import_lines-conserves :
      (file : FileLocation) (limit now : ℕ) (s : S)
      → 0 < limit
      → sent s ≡ []
      → let start : Run js S = record {
        outer = s;
        progress = begin (record { limit = limit; available = limit; waiters = [] }) now;
      } in
        (import_lines ports settings job file start).0 ≡ ok tt
        → Imported
            (provider_of file)
            (ports.lines file.storage_path)
            (import_lines ports settings job file start).1
  unfolding import_lines begin pending_size
  import_lines-conserves file limit now s positive fresh h =
      let start : Run js S = record {
        outer = s;
        progress = begin (record { limit = limit; available = limit; waiters = [] }) now;
      } in
      let i : Between ports sent o job settings [] 0 false start = (
        record {
          scored = rw fresh;
          rejected = rw fresh;
          counted = omega arith;
          batches = rw fresh tt;
          idle = record { free = positive; unqueued = refl };
          line_number = refl;
          cancelled = refl;
        },
        omega arith,
      ) in
      (Returns-bind (λ a. Stopped [] 0 (provider_of file) (ports.lines file.storage_path))
          (read_lines-Stopped (provider_of file) (ports.line_failure file.storage_path)
            (ports.lines file.storage_path) [] 0 start i)
          (λ u r k. flushed r k)).holds
        tt h
    where
      flushed :
          (r : Run js S)
          → Stopped [] 0 (provider_of file) (ports.lines file.storage_path) r
          → Returns
              (flush ports settings job)
              r
              (λ a. Imported (provider_of file) (ports.lines file.storage_path))
      flushed r k =
          Returns-weaken
            (λ a u (j, e, f). record {
              read = k.read;
              unread = k.unread;
              split = k.split;
              consumed = elim k.consumed [
                | inl (going, none_left, counted) ↦
                    inl (j.cancelled ∙ going, none_left, j.line_number ∙ counted)
                | inr (seen, left, counted) ↦
                    inr (j.cancelled ∙ seen, left, j.line_number ∙ counted)
              ];
              scored =
                  sym (append-nil _) ∙ ap (λ z. scored_of (sent u.outer) ++ z) (sym e) ∙ j.scored;
              rejected =
                  sym (append-nil _)
                  ∙ ap (λ z. rejected_of (sent u.outer) ++ z) (sym f)
                  ∙ j.rejected;
              batches = j.batches;
            })
            (flush-Held ports sent o job settings k.held k.room)
