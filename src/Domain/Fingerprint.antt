-- ===== src/Domain/Fingerprint.antt =====
-- src/domain/transaction/compute-fingerprint.ts: a versioned digest of seven fields.
pub mod Canonical
mod Examples
use high_throughput_transact.Base.{ℕ, List, [], ◌∷◌, ◌++◌}
use high_throughput_transact.Js.{Js}
use high_throughput_transact.Js.Strings.{Text, units}
use high_throughput_transact.Domain.Transaction.{ValidatedTransaction}

abbrev pub delimiter : ℕ
delimiter = b'|'

-- `parts.join(DELIMITER)`
abbrev pub join : List Text → Text
join [] = []
join (p ∷ []) = p
join (p ∷ q ∷ ps) = p ++ delimiter ∷ join (q ∷ ps)

module _ (js : Js) where
  abbrev pub canonical_parts : ValidatedTransaction js → List Text
  canonical_parts t =
      t.provider
      ∷ t.transaction_id
      ∷ t.account_id
      ∷ t.merchant_id
      ∷ js.to_fixed2 t.amount
      ∷ t.currency
      ∷ js.to_iso_string t.timestamp
      ∷ []

  pub canonical_string : ValidatedTransaction js → Text
  canonical_string t = join (canonical_parts t)

  unfoldable pub compute_fingerprint : ValidatedTransaction js → Text
  unfolding canonical_string
  compute_fingerprint t = units "v1:" ++ js.sha256 (canonical_string t)
