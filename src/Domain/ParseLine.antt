-- ===== src/Domain/ParseLine.antt =====
-- src/domain/transaction/parse-ndjson-line.ts: one line of an upload becomes blank, a JSON value
-- or a rejection.
pub mod Outcomes
mod Examples
use high_throughput_transact.Base.{ℕ, ◌*◌, String, none, some, ltb, if◌then◌else◌, take, null}
use high_throughput_transact.Js.{Js, Json}
use high_throughput_transact.Js.Strings.{Text, trim, byte_length}

abbrev pub max_line_bytes : ℕ
max_line_bytes = 64 * 1024

pub data LineErrorCode : Type 0 where
  line_too_long invalid_json : LineErrorCode

pub data LineParseResult (N : Type 0) : Type 0 where
  blank : LineParseResult N
  valid : (line_number : ℕ) → Json N → LineParseResult N
  rejected :
      (line_number : ℕ)
      → LineErrorCode
      → (message : String) → (raw_value_truncated : Text) → LineParseResult N

module _ (js : Js) where
  open js use {Number, json_parse, json_error}

  -- `JSON.parse` under `try`: `json_error` is the message of the `SyntaxError` that it throws.
  unfoldable pub parse_json : Text → ℕ → LineParseResult Number
  parse_json trimmed line_number = elim (json_parse trimmed) [
    | some v ↦ valid line_number v
    | none ↦ rejected line_number invalid_json (json_error trimmed) (take 200 trimmed)
  ]

  unfoldable pub parse_trimmed : Text → ℕ → LineParseResult Number
  unfolding parse_json
  parse_trimmed trimmed line_number =
      if null trimmed
      then blank
      else if ltb max_line_bytes (byte_length trimmed)
      then rejected line_number line_too_long "Line exceeds the 65536-byte limit."
          (take 200 trimmed)
      else parse_json trimmed line_number

  unfoldable pub parse_ndjson_line : Text → ℕ → LineParseResult Number
  unfolding parse_trimmed
  parse_ndjson_line raw_line line_number = parse_trimmed (trim raw_line) line_number
