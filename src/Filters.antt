-- ===== src/Filters.antt =====
-- domain/filters.py, and `filter_config_for` of services/dispatch.py.
pub mod Laws
use insightxadsflow.Prelude.{
  ℕ, Bool, true, false, not, ◌&&◌, List, [], ◌∷◌, if◌then◌else◌, any, map, select, String,
}
use insightxadsflow.Models.{Text, InboundMessage, MediaType, KeywordMatchMode, ForwardingRule}
use insightxadsflow.Text.{Unicode, codes, is_empty, same_text, contains, strip}
use insightxadsflow.Reasons

pub record FilterConfig : Type 0 where
  pub keyword_include : List Text
  pub keyword_exclude : List Text
  pub keyword_match_mode : KeywordMatchMode
  pub media_types : List Text

pub record FilterDecision : Type 0 where
  pub passed : Bool
  pub reason_code : String

abbrev pub allow : FilterDecision
allow = record { passed = true; reason_code = Reasons.ok }

abbrev pub block : String → FilterDecision
block reason_code = record { passed = false; reason_code = reason_code }

-- `MediaType.value`
abbrev pub media_value : MediaType → String
media_value MediaType.text = "text"
media_value MediaType.photo = "photo"
media_value MediaType.video = "video"
media_value MediaType.document = "document"
media_value MediaType.audio = "audio"
media_value MediaType.voice = "voice"
media_value MediaType.poll = "poll"
media_value MediaType.sticker = "sticker"
media_value MediaType.animation = "animation"
media_value MediaType.location = "location"
media_value MediaType.contact = "contact"
media_value MediaType.service = "service"
media_value MediaType.other = "other"

-- `media_type in UNSUPPORTED_MEDIA`
abbrev pub is_unsupported : MediaType → Bool
is_unsupported MediaType.service = true
is_unsupported _ = false

-- `MEDIA_ALIASES.get(v, v)`
unfoldable pub media_alias : Text → Text
unfolding same_text
media_alias v =
    if same_text v (codes "image")
    then codes "photo"
    else if same_text v (codes "gif")
    then codes "animation"
    else if same_text v (codes "file")
    then codes "document"
    else v

abbrev pub is_member : Text → List Text → Bool
is_member t = any (λ s. same_text s t)

abbrev pub is_nothing : List Text → Bool
is_nothing [] = true
is_nothing (_ ∷ _) = false

module _ (u : Unicode) where
  abbrev pub is_blank : Text → Bool
  is_blank t = is_empty (strip u t)

  -- The set as the list of its elements.
  unfoldable pub normalize_media_types : List Text → List Text
  unfolding media_alias
  normalize_media_types values =
      map (λ v. media_alias (u.lower (strip u v))) (select (λ v. not (is_blank v)) values)

  abbrev starts_with_word : Text → Bool
  starts_with_word [] = false
  starts_with_word (c ∷ t) = u.is_word c

  -- The escaped needle at the text's start, ignoring case, and `(?!\w)` behind it.
  unfoldable pub word_here : Text → Text → Bool
  word_here [] t = not (starts_with_word t)
  word_here (a ∷ p) [] = false
  word_here (a ∷ p) (c ∷ t) = if u.same_ignoring_case a c then word_here p t else false

  -- `re.search(rf"(?<!\w){re.escape(needle)}(?!\w)", ...)`; the flag says that the character before
  -- is `\w`.
  unfoldable pub word_in : Bool → Text → Text → Bool
  unfolding word_here
  word_in after_word needle [] = if after_word then false else word_here needle []
  word_in after_word needle (c ∷ t) =
      if (if after_word then false else word_here needle (c ∷ t))
      then true
      else word_in (u.is_word c) needle t

  abbrev found : KeywordMatchMode → Text → Text → Bool
  found KeywordMatchMode.word haystack needle = word_in false needle haystack
  found KeywordMatchMode.substring haystack needle =
      contains (u.casefold needle) (u.casefold haystack)

  -- `_matches`
  unfoldable pub matches : Text → Text → KeywordMatchMode → Bool
  unfolding word_in contains
  matches haystack needle mode =
      let needle' = strip u needle in
      if is_empty needle' then false else found mode haystack needle'

  unfoldable pub evaluate : InboundMessage → FilterConfig → FilterDecision
  evaluate message config =
      let selected = normalize_media_types config.media_types in
      let mode = config.keyword_match_mode in
      let include = select (λ kw. not (is_blank kw)) config.keyword_include in
      if message.has_protected_content
      then block Reasons.protected_content
      else if is_unsupported message.media_type
      then block Reasons.unsupported_message
      else if not (is_nothing selected)
          && not (is_member (codes (media_value message.media_type)) selected)
      then block Reasons.filtered_media_type
      else if any (λ kw. matches message.text kw mode) config.keyword_exclude
      then block Reasons.filtered_keyword_exclude
      else if not (is_nothing include) && not (any (λ kw. matches message.text kw mode) include)
      then block Reasons.filtered_keyword_include
      else allow

unfoldable pub filter_config_for : ForwardingRule → FilterConfig
filter_config_for rule = record {
  keyword_include = rule.keyword_include;
  keyword_exclude = rule.keyword_exclude;
  keyword_match_mode = rule.keyword_match_mode;
  media_types = rule.media_types;
}
