-- ===== src/Storage/CountLines/Examples.antt =====
-- Two chunks with a line that is cut in two, a blank line, and a last line without a line feed.
use high_throughput_transact.Base.{ℕ, ◌≡◌, List, [], ◌∷◌}
use high_throughput_transact.Storage.Disk.Saved.{concat}
use high_throughput_transact.Storage.CountLines.{
  count_lines, filled, split_lines, count_lines-filled,
}

abbrev chunks : List (List ℕ)
chunks = (123 ∷ []) ∷ (125 ∷ 10 ∷ 32 ∷ 10 ∷ 123 ∷ []) ∷ []

count_lines-filled_example : count_lines chunks ≡ filled (split_lines (concat chunks))
count_lines-filled_example = count_lines-filled chunks
