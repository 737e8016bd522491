-- ===== src/Storage/CountLines.antt =====
-- `countLines` of src/infrastructure/streaming/readline-line-reader.ts: the loop over the bytes of the chunks,
-- in whatever chunks the stream delivers them.
mod Examples
use high_throughput_transact.Base.{
  ℕ, ◌+◌, ◌≡◌, ◌≢◌, refl, sym, ap, ◌∙◌, inl, inr, Bool, true, false, not, ◌&&◌, ◌||◌, List, [], ◌∷◌,
  ◌++◌, arith, ◌==◌, if◌then◌else◌, Bool-cases, length, any, keep,
}
use high_throughput_transact.Storage.Disk.Saved.{concat}

-- `count` and `currentLineHasContent`.
pub record LineCount : Type 0 where
  pub count : ℕ
  pub has_content : Bool

-- Not CR, blank or tab.
abbrev pub is_content : ℕ → Bool
is_content byte = not (byte == 0x0d) && not (byte == 0x20) && not (byte == 0x09)

unfoldable pub end_line : LineCount → ℕ
end_line l = if l.has_content then l.count + 1 else l.count

unfoldable pub read_byte : ℕ → LineCount → LineCount
unfolding end_line
read_byte byte l =
    if byte == 0x0a
    then record { count = end_line l; has_content = false }
    else if is_content byte
    then record l { has_content = true }
    else l

unfoldable pub read_chunk : List ℕ → LineCount → LineCount
unfolding read_byte
read_chunk [] l = l
read_chunk (byte ∷ bytes) l = read_chunk bytes (read_byte byte l)

unfoldable pub read_chunks : List (List ℕ) → LineCount → LineCount
unfolding read_chunk
read_chunks [] l = l
read_chunks (chunk ∷ chunks) l = read_chunks chunks (read_chunk chunk l)

unfoldable pub count_lines : List (List ℕ) → ℕ
unfolding read_chunks end_line
count_lines chunks = end_line (read_chunks chunks (record { count = 0; has_content = false }))

-- The lines of a text: what stands between line feeds.
abbrev pub split_lines : List ℕ → List (List ℕ)
split_lines [] = [] ∷ []
split_lines (byte ∷ bytes) =
    let rest = split_lines bytes in
    if byte == 0x0a
    then [] ∷ rest
    else elim rest [ [] ↦ (byte ∷ []) ∷ [] | line ∷ lines ↦ (byte ∷ line) ∷ lines ]

-- Lines with a byte that is no CR, blank or tab.
abbrev pub filled : List (List ℕ) → ℕ
filled lines = length (keep (any is_content) lines)

read_chunk-append :
    (xs ys : List ℕ) (l : LineCount) → read_chunk (xs ++ ys) l ≡ read_chunk ys (read_chunk xs l)
unfolding read_chunk
read_chunk-append [] ys l = refl
read_chunk-append (x ∷ xs) ys l = read_chunk-append xs ys (read_byte x l)

-- Where the chunks are cut does not matter.
read_chunks-concat :
    (chunks : List (List ℕ)) (l : LineCount) → read_chunks chunks l ≡ read_chunk (concat chunks) l
unfolding read_chunks concat read_chunk
read_chunks-concat [] l = refl
read_chunks-concat (chunk ∷ chunks) l =
    read_chunks-concat chunks (read_chunk chunk l) ∙ sym (read_chunk-append chunk (concat chunks) l)

-- The count of the lines when the first of them has begun, with content or without.
filled_after : Bool → List (List ℕ) → ℕ
filled_after begun [] = 0
filled_after begun (line ∷ lines) = (if begun || any is_content line then 1 else 0) + filled lines

filled_after-none : (lines : List (List ℕ)) → filled_after false lines ≡ filled lines
unfolding filled_after
filled_after-none [] = refl
filled_after-none (line ∷ lines) = ground arith

split_lines-ne_nil : (bytes : List ℕ) → split_lines bytes ≢ []
split_lines-ne_nil [] e = cc
split_lines-ne_nil (byte ∷ bytes) e = ground arith

-- One byte, before the rest of the text is read.
byte-filled :
    (byte : ℕ) (l : LineCount) (rest : List (List ℕ)) {n : ℕ}
    → rest ≢ []
    → n ≡ (read_byte byte l).count + filled_after (read_byte byte l).has_content rest
    → n
      ≡ l.count
        + filled_after l.has_content (
            if byte == 0x0a
            then [] ∷ rest
            else elim rest [ [] ↦ (byte ∷ []) ∷ [] | line ∷ lines ↦ (byte ∷ line) ∷ lines ])
unfolding read_byte end_line filled_after
byte-filled byte l [] ne h = absurd (ne refl)
byte-filled byte l (line ∷ lines) ne h = elim (Bool-cases (byte == 0x0a)) [
  | inl e ↦ rw e (ground (arith, h))
  | inr e ↦ rw e (ground (arith, h))
]

read_chunk-filled :
    (bytes : List ℕ) (l : LineCount)
    → end_line (read_chunk bytes l) ≡ l.count + filled_after l.has_content (split_lines bytes)
unfolding read_chunk read_byte end_line filled_after
read_chunk-filled [] l = ground arith
read_chunk-filled (byte ∷ bytes) l =
    byte-filled byte l (split_lines bytes) (split_lines-ne_nil bytes)
      (read_chunk-filled bytes (read_byte byte l))

-- Whatever the chunks, the count is the number of lines of the file that have a byte other than
-- CR, blank and tab.
pub count_lines-filled :
    (chunks : List (List ℕ)) → count_lines chunks ≡ filled (split_lines (concat chunks))
unfolding count_lines
count_lines-filled chunks =
    let start : LineCount = record { count = 0; has_content = false } in
    omega (
      arith,
      ap end_line (read_chunks-concat chunks start),
      read_chunk-filled (concat chunks) start,
      filled_after-none (split_lines (concat chunks)),
    )
