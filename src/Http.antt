-- ===== src/Http.antt =====
-- src/http: the handlers of requests.
pub mod ImportController
