-- ===== src/Dispatch.antt =====
-- services/dispatch.py: an incoming message becomes forwarding jobs.
pub mod Created
pub mod Replays
use insightxadsflow.Prelude.{
  ℕ, suc, ◌+◌, ◌*◌, Bool, true, false, not, List, [], ◌∷◌, ◌++◌, Option, some, none, ◌==◌,
  if◌then◌else◌, any, select, length, ltb, leb, find_where, update_where, order_by, String,
}
use insightxadsflow.Prelude.Int.{eqb}
use insightxadsflow.Models.{
  InboundMessage, ForwardingRule, RuleDestination, RuleStatus, ForwardingJob, TelegramChat, ChatRef,
  SourceCursor, EventOutcome, Database, is_rule_active, same_peer, get_chat, put_rule, of_rule,
  millisecond, ChatAccess, Text,
}
use insightxadsflow.Text.{Unicode}
use insightxadsflow.Reasons
use insightxadsflow.Events.{event, record_event, to_ref}
use insightxadsflow.Filters.{FilterDecision, evaluate, filter_config_for}
use insightxadsflow.Jobs.{NewJob, create_if_absent}
use insightxadsflow.Keys.{Library, key_text, build_mtproto_random_id}

pub record DispatchResult : Type 0 where
  pub created_job_ids : List ℕ
  pub suppressed : ℕ
  pub skipped_reason : Option String
  pub matched_rules : ℕ

-- `find_by_peer`
unfoldable pub find_by_peer : Database → ℕ → ChatRef → Option TelegramChat
find_by_peer db connection_id ref =
    find_where
      (λ c.
        if c.connection_id == connection_id
        then (if same_peer c.peer_type ref.peer_type then eqb c.peer_id ref.peer_id else false)
        else false)
      db.chats

unfoldable pub list_active_with_source : Database → ℕ → ℕ → List ForwardingRule
list_active_with_source db connection_id chat_id =
    select
      (λ r.
        if r.connection_id == connection_id
        then (if any (λ s. s == chat_id) r.sources then is_rule_active r.status else false)
        else false)
      db.rules

abbrev add_chat : Option TelegramChat → List TelegramChat → List TelegramChat
add_chat none rest = rest
add_chat (some chat) rest = chat ∷ rest

-- `[by_id[i] for i in ids if i in by_id]`
unfoldable pub chats_of : Database → List RuleDestination → List TelegramChat
chats_of db [] = []
chats_of db (d ∷ rest) = add_chat (get_chat db d.chat_id) (chats_of db rest)

unfoldable pub destination_chats : Database → ForwardingRule → List TelegramChat
unfolding chats_of order_by
destination_chats db rule = chats_of db (order_by (λ d. d.position) rule.destinations)

abbrev can_post : Option ChatAccess → Bool
can_post none = false
can_post (some access) = access.can_post_destination

-- `is_active`, and an access row that allows posting
unfoldable pub is_open : TelegramChat → Bool
is_open chat = if chat.is_active then can_post chat.access else false

-- The jobs get the ids that `uuid4` draws, by the number of jobs there are.
module _ (u : Unicode) (lib : Library) (uuid4 : ℕ → ℕ) (now : ℕ) (connection_id : ℕ)
    (message : InboundMessage) (first : ℕ) (rest : List ℕ) (source_chat : TelegramChat)
    (rule : ForwardingRule) where
  abbrev pub key_for : TelegramChat → Text
  key_for destination = key_text lib rule.id message.source first rest (to_ref destination)

  -- What `create_if_absent` is given for the destination at a place of the list.
  unfoldable pub order_for : ℕ → TelegramChat → Database → NewJob
  order_for index destination db = record {
    id = uuid4 (length db.jobs);
    rule_id = rule.id;
    rule_version = rule.version;
    connection_id = connection_id;
    source_chat_id = source_chat.id;
    source_message_ids = first ∷ rest;
    destination_chat_id = destination.id;
    idempotency_key = key_for destination;
    mtproto_random_id = some (build_mtproto_random_id lib (key_for destination));
    not_before = now + rule.delay_ms * millisecond * index;
  }

  abbrev noted : Option ForwardingJob → DispatchResult → DispatchResult
  noted none result = record result { suppressed = suc result.suppressed }
  noted (some job) result = record result {
    created_job_ids = result.created_job_ids ++ job.id ∷ [];
  }

  abbrev skip : Option ℕ → String → Database → Database
  skip destination_chat_id reason_code db =
      record_event
        (event now (of_rule rule.id) none connection_id (some source_chat.id) (first ∷ rest)
          destination_chat_id EventOutcome.skipped reason_code 0)
        db

  -- The body of the loop over the destinations.
  unfoldable pub queue_one :
      ℕ → TelegramChat → DispatchResult × Database → DispatchResult × Database
  unfolding is_open create_if_absent order_for record_event event
  queue_one index destination (result, db) =
      let (job, db₁) = create_if_absent now (order_for index destination db) db in
      if is_open destination
      then (noted job result, db₁)
      else (result, skip (some destination.id) Reasons.destination_not_eligible db)

  unfoldable pub queue_from :
      ℕ → List TelegramChat → DispatchResult × Database → DispatchResult × Database
  unfolding queue_one
  queue_from index [] state = state
  queue_from index (destination ∷ later) state =
      queue_from (suc index) later (queue_one index destination state)

  abbrev is_rule_error : RuleStatus → Bool
  is_rule_error RuleStatus.error = true
  is_rule_error _ = false

  -- `last_activity_at`, and a rule in error that is active again
  abbrev touched : ForwardingRule
  touched = record rule {
    last_activity_at = some now;
    status = if is_rule_error rule.status then RuleStatus.active else rule.status;
  }

  abbrev note_album : Database → Database
  note_album db = if message.partial_album then skip none Reasons.partial_album db else db

  -- From the filters' decision on.
  unfoldable pub after_filters :
      FilterDecision → DispatchResult → Database → DispatchResult × Database
  unfolding queue_from destination_chats put_rule record_event event
  after_filters decision result db =
      let (result₁, db₁) = queue_from 0 (destination_chats db rule) (result, db) in
      if decision.passed then (result₁, put_rule touched (note_album db₁)) else (
        record result { skipped_reason = some decision.reason_code },
        skip none decision.reason_code db,
      )

  -- `_dispatch_for_rule`
  unfoldable pub dispatch_for_rule : DispatchResult → Database → DispatchResult × Database
  unfolding after_filters evaluate filter_config_for
  dispatch_for_rule result db =
      after_filters (evaluate u message (filter_config_for rule)) result db

-- `max(message_ids)`
unfoldable pub greatest : ℕ → List ℕ → ℕ
greatest n [] = n
greatest n (m ∷ rest) = if ltb n m then greatest m rest else greatest n rest

abbrev pub is_cursor : ℕ → ℕ → SourceCursor → Bool
is_cursor connection_id chat_id c =
    if c.connection_id == connection_id then c.chat_id == chat_id else false

abbrev raise_to : ℕ → SourceCursor → SourceCursor
raise_to highest c =
    if ltb c.last_processed_message_id highest
    then record c { last_processed_message_id = highest }
    else c

abbrev cursors_with : ℕ → ℕ → ℕ → Option SourceCursor → List SourceCursor → List SourceCursor
cursors_with connection_id chat_id highest none cursors =
    cursors
    ++ record {
      connection_id = connection_id;
      chat_id = chat_id;
      last_processed_message_id = highest;
    }
      ∷ []
cursors_with connection_id chat_id highest (some c) cursors =
    update_where (is_cursor connection_id chat_id) (raise_to highest) cursors

-- `_advance_cursor`
unfoldable pub advance_cursor : ℕ → TelegramChat → ℕ → List ℕ → Database → Database
unfolding greatest
advance_cursor connection_id chat first rest db = record db {
  cursors =
      cursors_with connection_id chat.id (greatest first rest)
        (find_where (is_cursor connection_id chat.id) db.cursors) db.cursors;
}

abbrev pub no_result : DispatchResult
no_result = record {
  created_job_ids = [];
  suppressed = 0;
  skipped_reason = none;
  matched_rules = 0;
}

abbrev is_open_source : Option TelegramChat → Option TelegramChat
is_open_source none = none
is_open_source (some chat) = if chat.is_active then some chat else none

module _ (u : Unicode) (lib : Library) (uuid4 : ℕ → ℕ) (now : ℕ) (connection_id : ℕ)
    (message : InboundMessage) where
  unfoldable pub dispatch_rules :
      ℕ
      → List ℕ
      → TelegramChat
      → List ForwardingRule
      → DispatchResult × Database
      → DispatchResult × Database
  unfolding dispatch_for_rule
  dispatch_rules first rest source_chat [] state = state
  dispatch_rules first rest source_chat (rule ∷ later) (result, db) =
      dispatch_rules first rest source_chat later (
        dispatch_for_rule u lib uuid4 now connection_id message first rest source_chat rule result
          db)

  -- From the source chat on. Without a message id the `max` of `_advance_cursor`, or an earlier
  -- `build_idempotency_key`, raises, and the session is rolled back.
  unfoldable pub dispatch_from :
      TelegramChat → List ℕ → Database → Option (DispatchResult × Database)
  unfolding dispatch_rules advance_cursor list_active_with_source
  dispatch_from source_chat [] db = none
  dispatch_from source_chat (first ∷ rest) db =
      let rules = list_active_with_source db connection_id source_chat.id in
      let (result, db₁) =
        dispatch_rules first rest source_chat rules
          (record no_result { matched_rules = length rules }, db) in
      some (result, advance_cursor connection_id source_chat first rest db₁)

  abbrev with_source : Option TelegramChat → Database → Option (DispatchResult × Database)
  with_source none db =
      some (record no_result { skipped_reason = some Reasons.source_not_eligible }, db)
  with_source (some source_chat) db = dispatch_from source_chat message.message_ids db

  -- `none` is a `ValueError`, after which the session is rolled back.
  unfoldable pub dispatch_inbound : Database → Option (DispatchResult × Database)
  unfolding dispatch_from find_by_peer
  dispatch_inbound db =
      with_source (is_open_source (find_by_peer db connection_id message.source)) db
