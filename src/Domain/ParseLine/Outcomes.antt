-- ===== src/Domain/ParseLine/Outcomes.antt =====
-- What a parsed line says of the line it came from.
use high_throughput_transact.Base.{
  ℕ, ◌≤◌, ◌<◌, ◌≡◌, refl, ◌≢◌, inl, inr, none, some, [], ◌∷◌, arith, ltb, ltb→lt, Bool-cases,
  Option-cases, length, take, length-take-le,
}
use high_throughput_transact.Js.{Js}
use high_throughput_transact.Js.Strings.{Text, trim, byte_length}
use high_throughput_transact.Domain.ParseLine.{
  max_line_bytes, line_too_long, invalid_json, LineParseResult, blank, valid, rejected,
  parse_ndjson_line, parse_json, parse_trimmed,
}

-- What an outcome promises of the trimmed text and of its number.
abbrev pub Explains : (js : Js) → Text → ℕ → LineParseResult js.Number → Type 0
Explains js t n blank = t ≡ []
Explains js t n (valid m v) =
    (m ≡ n) × (t ≢ []) × (byte_length t ≤ max_line_bytes) × (js.json_parse t ≡ some v)
Explains js t n (rejected m line_too_long msg raw) =
    (m ≡ n) × (max_line_bytes < byte_length t) × (raw ≡ take 200 t) × (length raw ≤ 200)
Explains js t n (rejected m invalid_json msg raw) =
    (m ≡ n)
    × (t ≢ [])
    × (byte_length t ≤ max_line_bytes)
    × (js.json_parse t ≡ none)
    × (raw ≡ take 200 t)
    × (length raw ≤ 200)

module _ (js : Js) (n : ℕ) where
  parse_json-Explains :
      (t : Text) → t ≢ [] → byte_length t ≤ max_line_bytes → Explains js t n (parse_json js t n)
  unfolding parse_json
  parse_json-Explains t ne fits = elim (Option-cases (js.json_parse t)) [
    | inl e ↦ rw (e, parse_json) (refl, ne, fits, e, refl, length-take-le 200 t)
    | inr (v, e) ↦ rw (e, parse_json) (refl, ne, fits, e)
  ]

  parse_trimmed-Explains : (t : Text) → Explains js t n (parse_trimmed js t n)
  unfolding parse_trimmed
  parse_trimmed-Explains [] = refl
  parse_trimmed-Explains (c ∷ s) = elim (Bool-cases (ltb max_line_bytes (byte_length (c ∷ s)))) [
    | inl long ↦ rw long (refl, ltb→lt _ _ long, refl, length-take-le 200 (c ∷ s))
    | inr short ↦ rw short (parse_json-Explains (c ∷ s) (λ e. cc) (ground arith))
  ]

-- Every line has exactly the outcome that its trimmed text calls for: blank if nothing is left,
-- too long if it takes more than 65536 bytes of UTF-8, else what `JSON.parse` says of it, under
-- the line's own number, and with at most the first 200 units of the text kept in a rejection.
pub parse_ndjson_line-Explains :
    (js : Js) (line : Text) (n : ℕ) → Explains js (trim line) n (parse_ndjson_line js line n)
unfolding parse_ndjson_line
parse_ndjson_line-Explains js line n = parse_trimmed-Explains js n (trim line)
