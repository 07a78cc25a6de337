-- ===== src/Filters/Laws.antt =====
-- What `evaluate` of domain/filters.py lets through, and what it reports.
use insightxadsflow.Prelude.{◌≡◌, ◌↔◌, ◌⊎◌, true, false, not, arith, any, select}
use insightxadsflow.Models.{InboundMessage}
use insightxadsflow.Text.{Unicode, codes}
use insightxadsflow.Reasons
use insightxadsflow.Filters.{
  FilterConfig, evaluate, matches, normalize_media_types, media_value, is_member, is_nothing,
  is_blank, is_unsupported, block,
}

module _ (u : Unicode) (m : InboundMessage) (c : FilterConfig) where
  -- What a rule asks of a message.
  pub record Passes : Type 0 where
    pub unprotected : m.has_protected_content ≡ false
    pub supported : is_unsupported m.media_type ≡ false
    pub media :
        (is_nothing (normalize_media_types u c.media_types) ≡ true)
        ⊎ (is_member (codes (media_value m.media_type)) (normalize_media_types u c.media_types)
            ≡ true)
    pub not_excluded :
        any (λ kw. matches u m.text kw c.keyword_match_mode) c.keyword_exclude ≡ false
    pub included :
        (is_nothing (select (λ kw. not (is_blank u kw)) c.keyword_include) ≡ true)
        ⊎ (any
              (λ kw. matches u m.text kw c.keyword_match_mode)
              (select (λ kw. not (is_blank u kw)) c.keyword_include)
            ≡ true)

  -- A message passes a rule's filters exactly when it is not protected, is of a supported type, has
  -- a selected media type (or none is selected), matches no excluded keyword, and matches a required
  -- keyword (or none is required).
  pub evaluate_iff : ((evaluate u m c).passed ≡ true) ↔ Passes
  unfolding evaluate
  evaluate_iff = (λ h. ground arith, λ p. ground (arith, p.media, p.included))

  -- A protected message is reported as protected whatever the filters say, and an unprotected one of
  -- an unsupported type as unsupported.
  pub safety_first :
      (m.has_protected_content ≡ true → evaluate u m c ≡ block Reasons.protected_content)
      × (m.has_protected_content ≡ false
          → is_unsupported m.media_type ≡ true
          → evaluate u m c ≡ block Reasons.unsupported_message)
  unfolding evaluate
  safety_first = (λ h. ground arith, λ h k. ground arith)
