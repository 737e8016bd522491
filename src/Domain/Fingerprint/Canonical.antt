-- ===== src/Domain/Fingerprint/Canonical.antt =====
-- Which transactions share the text under the digest.
use high_throughput_transact.Base.{◌≡◌, refl, ap, ◌≢◌, ◌↔◌, List, [], ◌∷◌, ◌++◌, arith, length, All}
use mathlib.Core.List.{append_assoc}
use high_throughput_transact.Js.{Js}
use high_throughput_transact.Js.Strings.{Text}
use high_throughput_transact.Domain.Transaction.{ValidatedTransaction}
use high_throughput_transact.Domain.Fingerprint.{
  delimiter, join, canonical_parts, canonical_string, compute_fingerprint,
}

-- No delimiter in a part.
abbrev pub IsPlain : Text → Type 0
IsPlain [] = Unit {0}
IsPlain (c ∷ s) = (c ≢ delimiter) × IsPlain s

split_at_delimiter :
    (a b : Text) {r s : Text}
    → IsPlain a
    → IsPlain b
    → a ++ delimiter ∷ r ≡ b ++ delimiter ∷ s
    → (a ≡ b) × (r ≡ s)
split_at_delimiter [] [] p q e = (refl, cc)
split_at_delimiter [] (y ∷ b) p q e = absurd (q.0 (cc))
split_at_delimiter (x ∷ a) [] p q e = absurd (p.0 (cc))
split_at_delimiter (x ∷ a) (y ∷ b) {r} {s} p q e =
    let rest : a ++ delimiter ∷ r ≡ b ++ delimiter ∷ s = cc in
    let (same, tail) = split_at_delimiter a b {r = r} {s = s} p.1 q.1 rest in
    let head : x ≡ y = cc in (cc, tail)

-- Parts without delimiters can be read back from the joined text.
join-injective :
    (ps qs : List Text)
    → length ps ≡ length qs
    → All IsPlain ps
    → All IsPlain qs
    → join ps ≡ join qs
    → ps ≡ qs
join-injective [] [] l hp hq e = refl
join-injective [] (q ∷ qs) l hp hq e = absurd (omega arith)
join-injective (p ∷ ps) [] l hp hq e = absurd (omega arith)
join-injective (p ∷ []) (q ∷ []) l hp hq e = cc
join-injective (p ∷ []) (q ∷ q' ∷ qs) l hp hq e = absurd (omega arith)
join-injective (p ∷ p' ∷ ps) (q ∷ []) l hp hq e = absurd (omega arith)
join-injective (p ∷ p' ∷ ps) (q ∷ q' ∷ qs) l hp hq e =
    let (same, rest) = split_at_delimiter p q hp.0 hq.0 e in
    let ih = join-injective (p' ∷ ps) (q' ∷ qs) (omega arith) hp.1 hq.1 rest in cc

-- Two transactions say the same in the seven fields that identify them: amounts to two decimals,
-- timestamps in ISO form.
pub record SameFields (js : Js) (t u : ValidatedTransaction js) : Type 0 where
  pub provider : t.provider ≡ u.provider
  pub transaction_id : t.transaction_id ≡ u.transaction_id
  pub account_id : t.account_id ≡ u.account_id
  pub merchant_id : t.merchant_id ≡ u.merchant_id
  pub amount : js.to_fixed2 t.amount ≡ js.to_fixed2 u.amount
  pub currency : t.currency ≡ u.currency
  pub timestamp : js.to_iso_string t.timestamp ≡ js.to_iso_string u.timestamp

-- No text among the seven fields holds the delimiter.
pub record FieldsPlain (js : Js) (t : ValidatedTransaction js) : Type 0 where
  pub provider : IsPlain t.provider
  pub transaction_id : IsPlain t.transaction_id
  pub account_id : IsPlain t.account_id
  pub merchant_id : IsPlain t.merchant_id
  pub amount : IsPlain (js.to_fixed2 t.amount)
  pub currency : IsPlain t.currency
  pub timestamp : IsPlain (js.to_iso_string t.timestamp)

parts-IsPlain :
    (js : Js) (t : ValidatedTransaction js) → FieldsPlain js t → All IsPlain (canonical_parts js t)
parts-IsPlain js t h = (
  h.provider,
  (h.transaction_id, (h.account_id, (h.merchant_id, (h.amount, (h.currency, (h.timestamp, tt)))))),
)

parts-SameFields :
    (js : Js) (t u : ValidatedTransaction js)
    → canonical_parts js t ≡ canonical_parts js u
    → SameFields js t u
parts-SameFields js t u e = record {
  provider = cc;
  transaction_id = cc;
  account_id = cc;
  merchant_id = cc;
  amount = cc;
  currency = cc;
  timestamp = cc;
}

SameFields-parts :
    (js : Js) (t u : ValidatedTransaction js)
    → SameFields js t u
    → canonical_parts js t ≡ canonical_parts js u
SameFields-parts js t u h =
    let p = h.provider in
    let i = h.transaction_id in
    let a = h.account_id in
    let m = h.merchant_id in let n = h.amount in let c = h.currency in let w = h.timestamp in cc

-- Two transactions whose seven fields hold no delimiter have the same canonical text exactly when
-- they agree on the provider, the transaction id, the account, the merchant, the amount to two
-- decimals, the currency and the timestamp in ISO form; the description plays no role.
pub canonical_string_iff :
    (js : Js) (t u : ValidatedTransaction js)
    → FieldsPlain js t
    → FieldsPlain js u
    → (canonical_string js t ≡ canonical_string js u) ↔ SameFields js t u
unfolding canonical_string
canonical_string_iff js t u ht hu = (
  λ e. parts-SameFields js t u (
      join-injective (canonical_parts js t) (canonical_parts js u) refl (parts-IsPlain js t ht)
        (parts-IsPlain js u hu) e),
  λ h. ap join (SameFields-parts js t u h),
)

-- The delimiter is not escaped: moving it across the border of the first two fields changes the
-- transaction and keeps the fingerprint, whatever the digest function is.
pub fingerprint_collides :
    (js : Js) (t : ValidatedTransaction js) (a b c : Text)
    → let left = record t { provider = a ++ delimiter ∷ b; transaction_id = c } in
      let right = record t { provider = a; transaction_id = b ++ delimiter ∷ c } in
      (compute_fingerprint js left ≡ compute_fingerprint js right)
      × (left.provider ≢ right.provider)
unfolding compute_fingerprint canonical_string
fingerprint_collides js t a b c = (simp append_assoc, longer a)
  where
    longer : (a : Text) → a ++ delimiter ∷ b ≢ a
    longer [] e = cc
    longer (x ∷ a) e = longer a (cc)
