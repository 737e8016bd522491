-- ===== src/Domain/Transaction.antt =====
-- src/domain/transaction/transaction.entity.ts and duplicate-policy.ts.
use high_throughput_transact.Base.{
  ◌≡◌, refl, ◌≢◌, ◌↔◌, inl, inr, Option, none, some, if◌then◌else◌, Bool-cases,
}
use high_throughput_transact.Js.{Js}
use high_throughput_transact.Js.Strings.{Text, text_eq}
use high_throughput_transact.Js.Strings.Laws.{text_eq_iff}

pub record ValidatedTransaction (js : Js) : Type 0 where
  pub provider : Text
  pub transaction_id : Text
  pub account_id : Text
  pub merchant_id : Text
  pub amount : js.Number
  pub currency : Text
  pub timestamp : js.Time
  pub description : Option Text

pub data DuplicateKind : Type 0 where
  duplicate content_mismatch : DuplicateKind

unfoldable pub classify_duplicate : Text → Option Text → DuplicateKind
classify_duplicate incoming none = duplicate
classify_duplicate incoming (some stored) =
    if text_eq incoming stored then duplicate else content_mismatch

-- A duplicate has mismatching content exactly when a fingerprint is stored and differs from the
-- incoming one.
pub classify_duplicate_iff :
    (incoming : Text) (stored : Option Text)
    → (classify_duplicate incoming stored ≡ content_mismatch)
      ↔ ((f : Text) × (stored ≡ some f) × (incoming ≢ f))
unfolding classify_duplicate
classify_duplicate_iff incoming none = ((λ e. cc), (λ (f, e, d). cc))
classify_duplicate_iff incoming (some stored) = elim (Bool-cases (text_eq incoming stored)) [
  | inl same ↦
      let e : incoming ≡ stored = (text_eq_iff incoming stored).0 same in
      (
        (λ h. let h' : duplicate ≡ content_mismatch = rw same at h in cc),
        (λ (f, s, d). absurd (d (cc))),
      )
  | inr other ↦ (
    (λ h. (stored, refl, (λ e. let t = (text_eq_iff incoming stored).1 e in cc))),
    (λ h. rw other),
  )
]
