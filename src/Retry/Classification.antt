-- ===== src/Retry/Classification.antt =====
-- Which thrown values are tried again.
use high_throughput_transact.Base.{
  ℕ, zero, suc, ◌+◌, ◌≤◌, String, ◌≡◌, refl, ◌↔◌, inl, inr, Bool, true, false, ◌||◌, some, arith,
  Bool-cases,
}
use high_throughput_transact.Domain.Errors.{
  DomainError, cancellation, code, category, is_retryable_kind, Thrown, plain, domain, object,
  prisma_known, wrap_database_error,
}
use high_throughput_transact.Retry.{is_retryable_code, has_retryable_cause, is_retryable}

-- The codes of a value itself.
abbrev pub has_retryable_code : Thrown → Bool
has_retryable_code plain = false
has_retryable_code (domain e cause) = is_retryable_code (some (code e))
has_retryable_code (object c original_code msg cause) =
    is_retryable_code c || is_retryable_code original_code
has_retryable_code (prisma_known c target fields) = is_retryable_code (some c)

-- The value `k` causes down.
abbrev pub nth_cause : ℕ → Thrown → Thrown
nth_cause zero e = e
nth_cause (suc k) plain = plain
nth_cause (suc k) (domain e cause) = nth_cause k cause
nth_cause (suc k) (object c original_code msg cause) = nth_cause k cause
nth_cause (suc k) (prisma_known c target fields) = plain

abbrev FoundBelow : ℕ → Thrown → Type 0
FoundBelow d e = (k : ℕ) × (k + d ≤ 5) × (has_retryable_code (nth_cause k e) ≡ true)

plain_has_none : (k : ℕ) → has_retryable_code (nth_cause k plain) ≡ false
plain_has_none zero = refl
plain_has_none (suc k) = refl

found : (e : Thrown) (d : ℕ) → has_retryable_cause e d ≡ true → FoundBelow d e
unfolding has_retryable_cause
found plain d h = cc
found (domain e cause) d h = elim (Bool-cases (is_retryable_code (some (code e)))) [
  | inl here ↦ (0, ground arith, here)
  | inr not_here ↦ let (k, b, r) = found cause (d + 1) (ground arith) in (suc k, omega arith, r)
]
found (object c o m cause) d h = elim (Bool-cases (is_retryable_code c || is_retryable_code o)) [
  | inl here ↦ (0, ground arith, here)
  | inr not_here ↦ let (k, b, r) = found cause (d + 1) (ground arith) in (suc k, omega arith, r)
]
found (prisma_known c t f) d h = (0, ground arith, ground arith)

finds :
    (e : Thrown) (d k : ℕ)
    → k + d ≤ 5
    → has_retryable_code (nth_cause k e) ≡ true
    → has_retryable_cause e d ≡ true
unfolding has_retryable_cause
finds plain d k b r = let n = plain_has_none k in cc
finds (domain e cause) d zero b r = ground arith
finds (domain e cause) d (suc k) b r =
    let ih = finds cause (d + 1) k (omega arith) r in ground arith
finds (object c o m cause) d zero b r = ground arith
finds (object c o m cause) d (suc k) b r =
    let ih = finds cause (d + 1) k (omega arith) r in ground arith
finds (prisma_known c t f) d zero b r = ground arith
finds (prisma_known c t f) d (suc k) b r = cc

-- A value is found to have a retryable cause exactly when the value itself, or one of the first
-- five causes down its chain, carries one of the retryable codes.
pub has_retryable_cause_iff :
    (e : Thrown)
    → (has_retryable_cause e 0 ≡ true)
      ↔ ((k : ℕ) × (k ≤ 5) × (has_retryable_code (nth_cause k e) ≡ true))
has_retryable_cause_iff e = (
  (λ h. let (k, b, r) = found e 0 h in (k, omega arith, r)),
  (λ (k, b, r). finds e 0 k (omega arith) r),
)

-- A domain error of the category cancellation is never tried again, whatever its cause; a
-- database error is always tried again, whatever its cause, a violated constraint included.
pub is_retryable-domain :
    (e : DomainError) (cause : Thrown) (operation : String)
    → category e ≡ cancellation
    → (is_retryable (domain e cause) ≡ false)
      × (is_retryable (wrap_database_error cause operation) ≡ true)
unfolding is_retryable wrap_database_error category is_retryable_kind
is_retryable-domain e cause operation h = (ground arith, refl)
