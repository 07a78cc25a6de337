-- ===== src/Errors/Laws.antt =====
-- What `classify_error` of adapters/errors.py promises of every exception.
use insightxadsflow.Prelude.{◌≡◌, ◌≢◌, none, some, arith, ◌∷◌, true, false, Bool, String}
use insightxadsflow.Models.{Exception, ExceptionKind, ErrorClass, adapter_error, other_error}
use insightxadsflow.Text.{Unicode}
use insightxadsflow.Errors.{
  classify_error, classify_provider_error, first_mapped, safe_messages, extract_retry_after,
}

-- `isinstance(exc, AdapterError)`
abbrev pub is_adapter_error : ExceptionKind → Bool
is_adapter_error (adapter_error _ _ _) = true
is_adapter_error _ = false

module _ (u : Unicode) (exc : Exception) where
  provider_wait :
      (classify_provider_error u exc).retry_after_s ≢ none
      → ((classify_provider_error u exc).error_class ≡ ErrorClass.rate_limit)
        × ((classify_provider_error u exc).retry_after_s ≡ extract_retry_after u exc)
  unfolding classify_provider_error
  provider_wait h = ground arith

  -- Unless the adapter classified the error itself, a wait comes with the class RATE_LIMIT only, and
  -- it is the wait that `_extract_retry_after` finds in the exception.
  pub wait_only_on_rate_limit :
      is_adapter_error exc.kind ≡ false
      → (classify_error u exc).retry_after_s ≢ none
      → ((classify_error u exc).error_class ≡ ErrorClass.rate_limit)
        × ((classify_error u exc).retry_after_s ≡ extract_retry_after u exc)
  unfolding classify_error
  wait_only_on_rate_limit plain h = ground (arith, provider_wait)

  -- Every classified error carries the fixed sentence of its class, never the provider's text.
  pub safe_message_of_class :
      (classify_error u exc).safe_message ≡ safe_messages (classify_error u exc).error_class
  unfolding classify_error
  safe_message_of_class = ground arith

  -- A class name that the table knows decides alone: neither the message nor an HTTP status can
  -- change the class or the code.
  pub mapped_name_decides :
      (c : ErrorClass) (code : String)
      → exc.kind ≡ other_error
      → first_mapped (exc.class_name ∷ exc.base_names) ≡ some (c, code)
      → ((classify_error u exc).error_class ≡ c) × ((classify_error u exc).code ≡ code)
  unfolding classify_error
  mapped_name_decides c code k m = ground arith
