-- ===== src/Observability/LogSanitizer.antt =====
-- src/infrastructure/system/log-sanitizer.ts, on lists of UTF-16 units.
pub mod Clean
mod Examples
use high_throughput_transact.Base.{
  ℕ, zero, suc, ◌+◌, ◌/◌, ◌%◌, String, Bool, not, ◌&&◌, ◌||◌, Option, none, some, List, [], ◌∷◌,
  ◌++◌, ltb, leb, ◌==◌, if◌then◌else◌, length, take, keep,
}
use high_throughput_transact.Js.Strings.{Text, units}

abbrev pub max_logged_value_length : ℕ
max_logged_value_length = 200

-- A value that is given to the logger: a string, a number, Boolean or Date with its JSON text, or
-- any other value with what `JSON.stringify` or else `String` makes of it; `none` where that throws.
pub data LogValue : Type 0 where
  undefined_value null_value : LogValue
  text : Text → LogValue
  scalar : (json : Text) → LogValue
  other : Option Text → LogValue

-- `String(n)`, with enough fuel for its digits.
unfoldable pub digits : ℕ → ℕ → Text
digits zero n = []
digits (suc f) n =
    let rest = digits f (n / 10) in if ltb n 10 then (48 + n) ∷ [] else rest ++ (48 + n % 10) ∷ []

unfoldable pub decimal : ℕ → Text
unfolding digits
decimal n = digits (suc n) n

-- `CONTROL_CHARS`: all control characters but tab, line feed and carriage return.
unfoldable pub is_removed : ℕ → Bool
is_removed c =
    leb c 0x08
    || (leb 0x0b c && leb c 0x0c)
    || (leb 0x0e c && leb c 0x1f)
    || (leb 0x7f c && leb c 0x9f)

-- `.replace(/\r\n/g, '\\r\\n')`
unfoldable pub replace_crlf : Text → Text
replace_crlf [] = []
replace_crlf (c ∷ []) = c ∷ []
replace_crlf (c ∷ d ∷ s) =
    let after_pair = replace_crlf s in
    let after_one = replace_crlf (d ∷ s) in
    if c == 13 && d == 10 then units "\\r\\n" ++ after_pair else c ∷ after_one

-- `.replace(/c/g, replacement)` for a single unit.
unfoldable pub replace_unit : ℕ → Text → Text → Text
replace_unit unit replacement [] = []
replace_unit unit replacement (c ∷ s) =
    let rest = replace_unit unit replacement s in
    if c == unit then replacement ++ rest else c ∷ rest

unfoldable pub escape : Text → Text
unfolding replace_crlf replace_unit is_removed
escape s =
    keep (λ c. not (is_removed c))
      (replace_unit 9 (units "\\t")
        (replace_unit 13 (units "\\r") (replace_unit 10 (units "\\n") (replace_crlf s))))

abbrev pub truncation_note : ℕ → Text
truncation_note n = 0x2026 ∷ units "[truncated " ++ (decimal n ++ units " chars]")

unfoldable pub shorten : Text → Text
shorten s =
    if ltb max_logged_value_length (length s)
    then take max_logged_value_length s ++ truncation_note (length s)
    else s

unfoldable pub stringify : LogValue → Text
stringify undefined_value = units "undefined"
stringify null_value = units "null"
stringify (text s) = s
stringify (scalar json) = json
stringify (other (some s)) = s
stringify (other none) = units "[unserializable]"

unfoldable pub sanitize_for_log : LogValue → Text
unfolding stringify escape shorten
sanitize_for_log undefined_value = units "undefined"
sanitize_for_log null_value = units "null"
sanitize_for_log v = shorten (escape (stringify v))

-- A context: numbers, Booleans and dates stay as they are.
unfoldable pub sanitize_value : LogValue → LogValue
unfolding sanitize_for_log
sanitize_value (scalar json) = scalar json
sanitize_value v = text (sanitize_for_log v)

unfoldable pub sanitize_log_context : List (String × LogValue) → List (String × LogValue)
unfolding sanitize_value
sanitize_log_context [] = []
sanitize_log_context ((key, value) ∷ context) =
    (key, sanitize_value value) ∷ sanitize_log_context context
