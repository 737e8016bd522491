-- ===== src/Js/Strings.antt =====
-- `String.prototype.trim`, the control-character filter, `Buffer.byteLength` and comparisons, on
-- lists of UTF-16 code units.
pub mod Laws
use Prim.Native.Char.{code}
use high_throughput_transact.Base.{
  ℕ, ◌+◌, ◌-◌, Bool, true, false, not, ◌&&◌, ◌||◌, List, [], ◌∷◌, leb, ◌==◌, if◌then◌else◌, null,
  keep, String,
}

abbrev pub Text : Type 0
Text = List ℕ

-- The units of an ASCII literal.
abbrev pub units : String → Text
units String.[] = []
units (String.◌∷◌ c s) = code c ∷ units s

abbrev pub text_eq : Text → Text → Bool
text_eq [] [] = true
text_eq (x ∷ xs) (y ∷ ys) = x == y && text_eq xs ys
text_eq _ _ = false

-- WhiteSpace and LineTerminator of ECMA-262, which `trim` removes.
unfoldable pub is_space : ℕ → Bool
is_space c =
    (leb 9 c && leb c 13)
    || c == 32
    || c == 0xa0
    || c == 0x1680
    || (leb 0x2000 c && leb c 0x200a)
    || c == 0x2028
    || c == 0x2029
    || c == 0x202f
    || c == 0x205f
    || c == 0x3000
    || c == 0xfeff

unfoldable pub trim_start : Text → Text
trim_start [] = []
trim_start (c ∷ s) = if is_space c then trim_start s else c ∷ s

unfoldable pub trim_end : Text → Text
trim_end [] = []
trim_end (c ∷ s) = let rest = trim_end s in if null rest && is_space c then [] else c ∷ rest

unfoldable pub trim : Text → Text
trim s = trim_end (trim_start s)

-- `CONTROL_CHARS`: U+0000 to U+001F, and U+007F to U+009F.
unfoldable pub is_control : ℕ → Bool
is_control c = leb c 0x1f || (leb 0x7f c && leb c 0x9f)

unfoldable pub strip_control : Text → Text
strip_control = keep (λ c. not (is_control c))

unfoldable pub is_high : ℕ → Bool
is_high c = leb 0xd800 c && leb c 0xdbff

unfoldable pub is_low : ℕ → Bool
is_low c = leb 0xdc00 c && leb c 0xdfff

unfoldable pub unit_bytes : ℕ → ℕ
unit_bytes c = if leb c 0x7f then 1 else if leb c 0x7ff then 2 else 3

-- A surrogate pair takes four bytes: three and one. A lone surrogate is written as U+FFFD.
unfoldable pub bytes_after : Bool → Text → ℕ
unfolding is_high is_low unit_bytes
bytes_after after_high [] = 0
bytes_after after_high (c ∷ s) =
    (if after_high && is_low c then 1 else unit_bytes c)
    + bytes_after (is_high c && not (after_high && is_low c)) s

unfoldable pub byte_length : Text → ℕ
unfolding bytes_after
byte_length s = bytes_after false s

-- `toUpperCase` on ASCII letters.
unfoldable pub to_upper : ℕ → ℕ
to_upper c = if leb 97 c && leb c 122 then c - 32 else c
