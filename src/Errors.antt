-- ===== src/Errors.antt =====
-- adapters/errors.py: every provider exception lands in one error class.
mod Tables
mod RetryAfter
pub mod Laws
pub use Tables.{by_exception_name, by_message_token, safe_messages}
unfoldable pub use RetryAfter.{extract_retry_after, retry_after_in, first_number}
use Prim.Native.String.{◌++◌}
use text.Mathlib.Text.{◌==◌ as str_eq}
use insightxadsflow.Prelude.{
  ℕ, Bool, true, false, ◌&&◌, List, [], ◌∷◌, Option, none, some, if◌then◌else◌, leb, ◌==◌, String,
}
use insightxadsflow.Models.{
  Text, Exception, ErrorClass, adapter_error, cancelled_error, ambiguous_delivery_error,
  other_error,
}
use insightxadsflow.Text.{Unicode, codes, contains}

pub record ClassifiedError : Type 0 where
  pub error_class : ErrorClass
  pub code : String
  pub retry_after_s : Option ℕ
  pub safe_message : String

-- `_BY_EXCEPTION_NAME.get`
unfoldable pub mapped_name :
    String → List (String × ErrorClass × String) → Option (ErrorClass × String)
mapped_name name [] = none
mapped_name name ((key, error_class, code) ∷ rest) =
    if str_eq key name then some (error_class, code) else mapped_name name rest

-- The walk over `_class_names(exc)`.
unfoldable pub first_mapped : List String → Option (ErrorClass × String)
unfolding mapped_name
first_mapped [] = none
first_mapped (name ∷ rest) = elim (mapped_name name by_exception_name) [
  | none ↦ first_mapped rest
  | some m ↦ some m
]

-- The first token of the table that is in the upper-cased message.
unfoldable pub first_token :
    Text → List (String × ErrorClass × String) → Option (ErrorClass × String)
unfolding contains
first_token upper [] = none
first_token upper ((token, error_class, code) ∷ rest) =
    if contains (codes token) upper then some (error_class, code) else first_token upper rest

abbrev http : Option ℕ → Option ℕ → Option ℕ
http none later = later
http (some n) later = if leb 100 n && leb n 599 then some n else later

-- `_status_code`
unfoldable pub status_code : Exception → Option ℕ
status_code exc = http exc.status_code (http exc.code (http exc.http_status none))

abbrev pub is_rate_limit : ErrorClass → Bool
is_rate_limit ErrorClass.rate_limit = true
is_rate_limit _ = false

abbrev classified : ErrorClass → String → Option ℕ → ClassifiedError
classified error_class code retry_after = record {
  error_class = error_class;
  code = code;
  retry_after_s = retry_after;
  safe_message = safe_messages error_class;
}

module _ (u : Unicode) where
  abbrev from_table : Exception → ErrorClass × String → ClassifiedError
  from_table exc (error_class, code) =
      classified error_class code
        (if is_rate_limit error_class then extract_retry_after u exc else none)

  -- Steps 4 and 5: the HTTP status, and the default.
  unfoldable pub by_status : Exception → Option ℕ → ClassifiedError
  by_status exc none = classified ErrorClass.unknown ("unknown:" ++ exc.class_name) none
  by_status exc (some status) =
      if status == 429
      then classified ErrorClass.rate_limit "flood_wait" (extract_retry_after u exc)
      else if status == 401
      then classified ErrorClass.auth "unauthorized" none
      else if status == 403
      then classified ErrorClass.permission "write_forbidden" none
      else if leb 500 status && leb status 599
      then classified ErrorClass.transient "server_error" none
      else classified ErrorClass.unknown ("unknown:" ++ exc.class_name) none

  -- Steps 2 to 5.
  unfoldable pub classify_provider_error : Exception → ClassifiedError
  unfolding by_status
  classify_provider_error exc = elim (first_mapped (exc.class_name ∷ exc.base_names)) [
    | some m ↦ from_table exc m
    | none ↦ elim (first_token (u.upper exc.message) by_message_token) [
      | some m ↦ from_table exc m
      | none ↦ by_status exc (status_code exc)
    ]
  ]

  unfoldable pub classify_error : Exception → ClassifiedError
  unfolding classify_provider_error
  classify_error exc = elim exc.kind [
    | adapter_error code error_class retry_after ↦ classified error_class code retry_after
    | cancelled_error ↦ classified ErrorClass.transient "cancelled" none
    | ambiguous_delivery_error ↦ classify_provider_error exc
    | other_error ↦ classify_provider_error exc
  ]
