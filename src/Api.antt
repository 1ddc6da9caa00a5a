-- ===== src/Api.antt =====
-- The errors and results of the REST handlers, src/api/mod.rs. A result of the crate anyhow carries
-- its message; `bad_request_of` is `map_err(|e| ApiError::BadRequest(e.to_string()))`.
pub mod Cursor
pub mod Lists
pub mod Coins
pub mod Candles
pub mod PollInterval
pub mod CycleOverlay
use crypto_collector.Prelude.{ℕ, String}

pub data ApiError : Type 0 where
  bad_request : String → ApiError
  not_found : String → ApiError
  unprocessable_entity : String → ApiError
  service_unavailable : String → ApiError
  internal : String → ApiError

-- What `into_response` answers: the status and the code of the body. The text of an internal error
-- is not shown.
unfoldable pub into_response : ApiError → ℕ × String × String
into_response (ApiError.bad_request msg) = (400, "BAD_REQUEST", msg)
into_response (ApiError.not_found msg) = (404, "NOT_FOUND", msg)
into_response (ApiError.unprocessable_entity msg) = (422, "UNPROCESSABLE_ENTITY", msg)
into_response (ApiError.service_unavailable msg) = (503, "SERVICE_UNAVAILABLE", msg)
into_response (ApiError.internal e) = (500, "INTERNAL_SERVER_ERROR", "an internal error occurred")

pub data ApiResult {ℓ} (A : Type ℓ) : Type ℓ where
  ok : A → ApiResult A
  err : ApiError → ApiResult A

pub data Fallible {ℓ} (A : Type ℓ) : Type ℓ where
  done : A → Fallible A
  failed : String → Fallible A

infixl 5 ◌>>=◌
abbrev pub ◌>>=◌ {ℓ κ} : {A : Type ℓ} {B : Type κ} → ApiResult A → (A → ApiResult B) → ApiResult B
ApiResult.ok a >>= f = f a
ApiResult.err e >>= f = ApiResult.err e

abbrev pub bad_request_of {ℓ} : {A : Type ℓ} → Fallible A → ApiResult A
bad_request_of (Fallible.done a) = ApiResult.ok a
bad_request_of (Fallible.failed msg) = ApiResult.err (ApiError.bad_request msg)
