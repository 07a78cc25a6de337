-- ===== src/Reasons/Laws.antt =====
-- What `describe` of domain/reasons.py says of each code.
use text.Mathlib.Text.{◌==◌}
use insightxadsflow.Prelude.{◌≡◌, not, All, is_some, arith}
use insightxadsflow.Reasons
use insightxadsflow.Reasons.{vocabulary, reason_text, lookup}

-- Of all the codes that the module names, exactly `auto_reply_not_advertising` has no sentence of
-- its own in `REASON_TEXT`.
pub sentence_exists :
    All
      (λ code. is_some (lookup code reason_text) ≡ not (code == Reasons.auto_reply_not_advertising))
      vocabulary
unfolding lookup
sentence_exists = ground arith
