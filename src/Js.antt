-- ===== src/Js.antt =====
-- What the program uses of JavaScript. A string is the list of its UTF-16 code units. Numbers are
-- IEEE doubles and dates are `Date` objects: both stay abstract, with the operations that the
-- code calls, and so do `JSON` and `node:crypto`.
pub mod Strings
pub mod Sample
use Strings.{Text}
use high_throughput_transact.Base.{ℕ, Bool, Option, none, some, if◌then◌else◌, String, str_eq}

pub data ℤ : Type 0 where
  pos : ℕ → ℤ
  negsuc : ℕ → ℤ

-- What `JSON.parse` returns, over the type of numbers.
mutual
  pub data Json (N : Type 0) : Type 0 where
    null : Json N
    bool : Bool → Json N
    num : N → Json N
    str : Text → Json N
    arr : Items N → Json N
    obj : Fields N → Json N

  pub data Items (N : Type 0) : Type 0 where
    nil : Items N
    cons : Json N → Items N → Items N

  pub data Fields (N : Type 0) : Type 0 where
    end : Fields N
    field : String → Json N → Fields N → Fields N

-- A property of a parsed object; `none` is `undefined`.
unfoldable pub get : {N : Type 0} → String → Fields N → Option (Json N)
get k end = none
get k (field j v fs) = if str_eq j k then some v else get k fs

-- The operations on numbers, dates, JSON texts and digests.
pub record Js : Type 1 where
  pub Number : Type 0
  pub lit : ℕ → Number
  pub add : Number → Number → Number
  pub sub : Number → Number → Number
  pub mul : Number → Number → Number
  pub div : Number → Number → Number
  pub le : Number → Number → Bool
  pub is_finite : Number → Bool
  pub is_nan : Number → Bool
  pub round : Number → Number
  pub log10 : Number → Number
  pub cos_hours : ℕ → Number
  pub number_of_text : Text → Number
  pub to_fixed2 : Number → Text
  pub Time : Type 0
  pub date_of_text : Text → Option Time
  pub date_of_number : Number → Option Time
  pub utc_year : Time → ℤ
  pub utc_hours : Time → ℕ
  pub to_iso_string : Time → Text
  pub json_parse : Text → Option (Json Number)
  pub json_error : Text → String
  pub json_stringify : Json Number → Text
  pub sha256 : Text → Text
