-- ===== src/Domain/Errors/Responses.antt =====
-- src/http/common/filters/app-exception.filter.ts and DomainError.toSafeResponse: what a client sees of an error.
mod Examples
use high_throughput_transact.Base.{ℕ, String, ◌≡◌, refl, ◌≢◌, ◌⊎◌, inl, inr, ◌≤◌, ◌<◌, arith}
use high_throughput_transact.Domain.Errors.{
  ErrorCategory, infrastructure, DomainError, code, http_status, category, message, Thrown, domain,
  plain, object, prisma_known,
}

pub record SafeResponse : Type 0 where
  pub status : ℕ
  pub error_code : String
  pub error_message : String
  pub request_id : ℕ

to_safe_response : DomainError → ℕ → SafeResponse
unfolding code message http_status
to_safe_response e id = record {
  status = http_status e;
  error_code = code e;
  error_message = message e;
  request_id = id;
}

pub data LogLevel : Type 0 where
  error_level warn_level : LogLevel

log_level : ErrorCategory → LogLevel
log_level infrastructure = error_level
log_level _ = warn_level

-- `catch(exception, host)`: the reply, and the level of the one log line.
pub catch_exception : Thrown → ℕ → SafeResponse × LogLevel
unfolding to_safe_response log_level category
catch_exception (domain e cause) id = (to_safe_response e id, log_level (category e))
catch_exception _ id = (
  record {
    status = 500;
    error_code = "INTERNAL_ERROR";
    error_message = "An unexpected error occurred.";
    request_id = id;
  },
  error_level,
)

abbrev unexpected : ℕ → SafeResponse
unexpected id = record {
  status = 500;
  error_code = "INTERNAL_ERROR";
  error_message = "An unexpected error occurred.";
  request_id = id;
}

statuses : (e : DomainError) → (400 ≤ http_status e) × (http_status e < 600) × (http_status e ≢ 500)
unfolding http_status
statuses e = ground arith

-- A client never sees more of a thrown value than the class of a domain error says of itself: a
-- value that is no domain error gets one fixed answer of status 500, logged as an error; a domain
-- error gets the code, the message and the status of its own class with the request's id, the
-- same for every cause that it may have, and that status is from 400 to 599 and not 500.
pub catch_exception-hides :
    (e : Thrown) (id : ℕ)
    → (((d : DomainError) (cause : Thrown) → e ≢ domain d cause)
        × (catch_exception e id ≡ (unexpected id, error_level)))
      ⊎ ((d : DomainError) × (cause : Thrown) × (e ≡ domain d cause)
          × ((other : Thrown) → catch_exception (domain d other) id ≡ catch_exception e id)
          × ((catch_exception e id).0.error_code ≡ code d)
          × ((catch_exception e id).0.error_message ≡ message d)
          × ((catch_exception e id).0.status ≡ http_status d)
          × ((catch_exception e id).0.request_id ≡ id)
          × (400 ≤ http_status d)
          × (http_status d < 600)
          × (http_status d ≢ 500))
unfolding catch_exception to_safe_response
catch_exception-hides plain id = inl ((λ d cause h. cc), refl)
catch_exception-hides (object c o m cause) id = inl ((λ d cause h. cc), refl)
catch_exception-hides (prisma_known c t fs) id = inl ((λ d cause h. cc), refl)
catch_exception-hides (domain d cause) id =
    let (low, high, other) = statuses d in
    inr (d, cause, refl, λ x. refl, refl, refl, refl, refl, low, high, other)
