-- ===== src/Rules.antt =====
-- services/rules.py and repositories/rules.py: rules are validated, stored, activated and paused.
pub mod Listed
pub mod Validation
pub mod Lifecycle
use insightxadsflow.Prelude.{
  ℕ, suc, ◌+◌, ◌*◌, Bool, true, false, not, ◌&&◌, ◌||◌, List, [], ◌∷◌, ◌++◌, Option, some, none,
  ◌==◌, if◌then◌else◌, any, length, leb, ltb, map, select, find_where, update_where, String,
}
use insightxadsflow.Models.{
  Text, Settings, TelegramConnection, TelegramChat, ChatAccess, ForwardingRule, RuleDestination,
  RuleStatus, ForwardMode, KeywordMatchMode, Database, put_rule, get_chat,
}
use insightxadsflow.Leases.{mem_id}
use insightxadsflow.Jobs
use insightxadsflow.Broadcasts.Targets.{distinct}
use insightxadsflow.Dispatch.{destination_chats}

-- A value, or a `RuleValidationError` with its code.
pub data Result {ℓ} (A : Type ℓ) : Type ℓ where
  ok : A → Result A
  err : String → Result A

infixl 5 ◌>>=◌ ◌>>◌
abbrev pub ◌>>=◌ {ℓ κ} : {A : Type ℓ} {B : Type κ} → Result A → (A → Result B) → Result B
ok a >>= f = f a
err code >>= f = err code

abbrev pub ◌>>◌ {ℓ} : {B : Type ℓ} → Result (Unit {0}) → Result B → Result B
m >> k = m >>= λ _. k

abbrev pub refuse : Bool → String → Result (Unit {0})
refuse true code = err code
refuse false code = ok tt

-- The two modes are the members that the strings name.
pub record RuleInput : Type 0 where
  pub name : Text
  pub connection_id : ℕ
  pub source_chat_ids : List ℕ
  pub destination_chat_ids : List ℕ
  pub forward_mode : ForwardMode
  pub delay_ms : ℕ
  pub keyword_include : List Text
  pub keyword_exclude : List Text
  pub keyword_match_mode : KeywordMatchMode
  pub media_types : List Text
  pub preserve_links : Bool
  pub preserve_caption : Bool
  pub allow_source_as_destination : Bool

-- `dict.fromkeys` and `set`: the ids of a list once each, in the order of their first places.
abbrev pub once : List ℕ → List ℕ
once ids = distinct [] ids

-- `get_many` of repositories/chats.py
unfoldable pub get_many : Database → ℕ → List ℕ → List TelegramChat
get_many db user_id chat_ids =
    select
      (λ c.
        if mem_id c.id chat_ids
        then any (λ n. if n.id == c.connection_id then n.user_id == user_id else false)
            db.connections
        else false)
      db.chats

abbrev pub no_ids : List ℕ → Bool
no_ids [] = true
no_ids (i ∷ rest) = false

abbrev can_read : Option ChatAccess → Bool
can_read none = false
can_read (some access) = access.can_read_source

abbrev can_post : Option ChatAccess → Bool
can_post none = false
can_post (some access) = access.can_post_destination

unfoldable pub check_connection : ℕ → List TelegramChat → Result (Unit {0})
check_connection connection_id [] = ok tt
check_connection connection_id (chat ∷ rest) = do
  refuse (not (chat.connection_id == connection_id)) "chat_from_other_connection"
  check_connection connection_id rest

unfoldable pub check_sources : List TelegramChat → Result (Unit {0})
check_sources [] = ok tt
check_sources (chat ∷ rest) = do
  refuse chat.has_protected_content "protected_source"
  refuse (not (can_read chat.access)) "source_not_eligible"
  check_sources rest

unfoldable pub check_destinations : List TelegramChat → Result (Unit {0})
check_destinations [] = ok tt
check_destinations (chat ∷ rest) = do
  refuse (not (can_post chat.access)) "destination_not_eligible"
  check_destinations rest

-- `delay_ms` is a number here, so that only its upper bound is tested; the spread is compared in
-- milliseconds.
unfoldable pub validate :
    Settings
    → Database
    → ℕ
    → TelegramConnection
    → RuleInput
    → Result (List TelegramChat × List TelegramChat)
unfolding check_connection check_sources check_destinations get_many distinct
validate settings db user_id connection payload = do
  refuse (no_ids payload.source_chat_ids) "no_sources"
  refuse (no_ids payload.destination_chat_ids) "no_destinations"
  refuse (ltb settings.max_destinations_per_rule (length payload.destination_chat_ids))
      "too_many_destinations"
  refuse (ltb settings.max_sources_per_rule (length payload.source_chat_ids)) "too_many_sources"
  refuse (not (leb payload.delay_ms settings.max_rule_delay_ms)) "delay_out_of_bounds"
  refuse
      (ltb (settings.max_rule_spread_s * 1000)
        (payload.delay_ms * length payload.destination_chat_ids))
      "delay_spread_too_long"
  refuse
      (any (λ i. mem_id i payload.destination_chat_ids) payload.source_chat_ids
        && not payload.allow_source_as_destination)
      "source_is_also_destination"
  let sources = get_many db user_id payload.source_chat_ids
  let destinations = get_many db user_id payload.destination_chat_ids
  refuse (not (length sources == length (once payload.source_chat_ids))) "unknown_source_chat"
  refuse (not (length destinations == length (once payload.destination_chat_ids)))
      "unknown_destination_chat"
  check_connection connection.id (sources ++ destinations)
  check_sources sources
  check_destinations destinations
  ok (sources, destinations)

-- `replace_destinations`: the positions are those of the list.
unfoldable pub placed : ℕ → List ℕ → List RuleDestination
placed position [] = []
placed position (i ∷ rest) =
    record { chat_id = i; position = position } ∷ placed (suc position) rest

-- `replace_sources` and `replace_destinations`
unfoldable pub with_chats : RuleInput → ForwardingRule → ForwardingRule
unfolding placed distinct
with_chats payload rule = record rule {
  sources = once payload.source_chat_ids;
  destinations = placed 0 (once payload.destination_chat_ids);
}

unfoldable pub new_rule : Settings → ℕ → ℕ → ℕ → RuleInput → ForwardingRule
new_rule settings id user_id connection_id payload = record {
  id = id;
  user_id = user_id;
  connection_id = connection_id;
  name = payload.name;
  status = RuleStatus.draft;
  version = 1;
  forward_mode = payload.forward_mode;
  delay_ms = payload.delay_ms;
  keyword_include = payload.keyword_include;
  keyword_exclude = payload.keyword_exclude;
  keyword_match_mode = payload.keyword_match_mode;
  media_types = payload.media_types;
  preserve_links = payload.preserve_links;
  preserve_caption = payload.preserve_caption;
  max_attempts = settings.max_attempts;
  paused_reason_code = none;
  last_activity_at = none;
  sources = [];
  destinations = [];
}

-- `id` is what `uuid4` draws.
unfoldable pub create :
    Settings
    → ℕ
    → ℕ
    → TelegramConnection
    → RuleInput
    → Database
    → Result (ForwardingRule × Database)
unfolding validate new_rule with_chats
create settings id user_id connection payload db = do
  chats ← validate settings db user_id connection payload
  let rule = with_chats payload (new_rule settings id user_id connection.id payload)
  ok (rule, record db { rules = db.rules ++ rule ∷ [] })

unfoldable pub edited : RuleInput → ForwardingRule → ForwardingRule
edited payload rule = record rule {
  name = payload.name;
  forward_mode = payload.forward_mode;
  delay_ms = payload.delay_ms;
  keyword_include = payload.keyword_include;
  keyword_exclude = payload.keyword_exclude;
  keyword_match_mode = payload.keyword_match_mode;
  media_types = payload.media_types;
  preserve_links = payload.preserve_links;
  preserve_caption = payload.preserve_caption;
  version = rule.version + 1;
}

unfoldable pub update :
    Settings
    → ℕ
    → ForwardingRule
    → TelegramConnection
    → RuleInput
    → Database
    → Result (ForwardingRule × Database)
unfolding validate edited with_chats put_rule
update settings user_id rule connection payload db = do
  chats ← validate settings db user_id connection payload
  let new = with_chats payload (edited payload rule)
  ok (new, put_rule new db)

-- `source_chats`
unfoldable pub source_chats : Database → ForwardingRule → List TelegramChat
source_chats db rule = select (λ c. mem_id c.id rule.sources) db.chats

abbrev pub may_read : TelegramChat → Bool
may_read c = can_read c.access && c.is_active

abbrev pub may_post : TelegramChat → Bool
may_post c = can_post c.access && c.is_active

unfoldable pub activate : ForwardingRule → Database → Result (ForwardingRule × Database)
unfolding source_chats destination_chats put_rule
activate rule db = do
  refuse
      (not (any may_read (source_chats db rule)) || not (any may_post (destination_chats db rule)))
      "not_activatable"
  let new = record rule { status = RuleStatus.active; paused_reason_code = none }
  ok (new, put_rule new db)

unfoldable pub resume : ForwardingRule → Database → Result (ForwardingRule × Database)
unfolding activate
resume rule db = activate rule db

unfoldable pub pause : ℕ → ForwardingRule → String → Database → ForwardingRule × Database
unfolding put_rule
pause now rule reason_code db =
    let new = record rule { status = RuleStatus.paused; paused_reason_code = some reason_code } in
    (new, (Jobs.cancel_pending_for_rule now rule.id (put_rule new db)).1)

unfoldable pub disable_for_connection : ℕ → Database → Database
disable_for_connection connection_id db = record db {
  rules =
      update_where (λ r. r.connection_id == connection_id)
        (λ r. record r { status = RuleStatus.disconnected }) db.rules;
}
