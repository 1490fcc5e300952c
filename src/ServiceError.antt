-- ===== src/ServiceError.antt =====
-- backend/src/util/error.rs: the errors of the service layer, without their messages.
pub data ServiceError : Type 0 where
  not_found forbidden rate_limited bad_request conflict duplicate : ServiceError
  quota_exceeded validation internal : ServiceError
