-- ===== src/Domain/Errors/Responses/Examples.antt =====
-- The answer to a database error.
use high_throughput_transact.Base.{◌≡◌, ◌≢◌, ◌⊎◌, ◌≤◌, ◌<◌, none, some}
use high_throughput_transact.Domain.Errors.{
  DomainError, Thrown, code, domain, http_status, message, object, plain, wrap_database_error,
}
use high_throughput_transact.Domain.Errors.Responses.{
  catch_exception, catch_exception-hides, unexpected, error_level,
}

abbrev refused : Thrown
refused =
    wrap_database_error (object (some "ECONNREFUSED") none (some "connect 10.0.0.5") plain)
      "ImportRepository.findById"

catch_exception-hides_example :
    (((d : DomainError) (cause : Thrown) → refused ≢ domain d cause)
      × (catch_exception refused 7 ≡ (unexpected 7, error_level)))
    ⊎ ((d : DomainError) × (cause : Thrown) × (refused ≡ domain d cause)
        × ((other : Thrown) → catch_exception (domain d other) 7 ≡ catch_exception refused 7)
        × ((catch_exception refused 7).0.error_code ≡ code d)
        × ((catch_exception refused 7).0.error_message ≡ message d)
        × ((catch_exception refused 7).0.status ≡ http_status d)
        × ((catch_exception refused 7).0.request_id ≡ 7)
        × (400 ≤ http_status d)
        × (http_status d < 600)
        × (http_status d ≢ 500))
catch_exception-hides_example = catch_exception-hides refused 7
