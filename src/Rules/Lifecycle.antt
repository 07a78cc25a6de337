-- ===== src/Rules/Lifecycle.antt =====
-- services/rules.py: what editing and pausing a rule leave behind.
use insightxadsflow.Leases.{mem_id}
use insightxadsflow.Rules.Listed.{once_if}
use insightxadsflow.Prelude.{
  get_elem?, ℕ, ◌+◌, ◌≡◌, ◌⊎◌, Bool, true, false, some, ◌==◌, if◌then◌else◌, All, arith,
  count_where, All-select-update_where, String,
}
use insightxadsflow.Models.{
  ForwardingRule, RuleDestination, ForwardingJob, Database, put_rule, get_rule, is_unfinished,
}
use insightxadsflow.Leases.Cancels.{cancel_rows_lem}
use insightxadsflow.Jobs.{job_table, cancel_pending_for_rule}
use insightxadsflow.Dispatch.{list_active_with_source}
use insightxadsflow.Rules.{Result, ok, err, RuleInput, edited, with_chats, pause}

abbrev pub is_queued_for : ℕ → ForwardingJob → Bool
is_queued_for rule_id j = if j.rule_id == rule_id then is_unfinished j.work.status else false

-- After a pause no job of the rule is pending or leased, and dispatch lists no rule with its id, for
-- whatever connection and chat.
pub pause_stops_rule :
    (now : ℕ) (rule : ForwardingRule) (reason_code : String) (db : Database)
    (connection_id chat_id : ℕ)
    → (count_where (is_queued_for rule.id) (pause now rule reason_code db).1.jobs ≡ 0)
      × All
          (λ r. (r.id == rule.id) ≡ false)
          (list_active_with_source (pause now rule reason_code db).1 connection_id chat_id)
unfolding pause cancel_pending_for_rule list_active_with_source put_rule
pause_stops_rule now rule reason_code db connection_id chat_id = (
  (cancel_rows_lem job_table now (λ j. j.rule_id == rule.id) db.jobs).1,
  All-select-update_where _ (λ r. r.id == rule.id) _ (ground arith) db.rules,
)

abbrev edit : RuleInput → ForwardingRule → ForwardingRule
edit payload rule = with_chats payload (edited payload rule)

-- What an accepted input makes of a rule: every field of the input is stored, each source and each
-- destination once, the destinations at the places that they say; the version is the next one, and what
-- the input does not name stays.
pub record IsEdit (payload : RuleInput) (rule new : ForwardingRule) : Type 0 where
  pub name : new.name ≡ payload.name
  pub forward_mode : new.forward_mode ≡ payload.forward_mode
  pub delay_ms : new.delay_ms ≡ payload.delay_ms
  pub keyword_include : new.keyword_include ≡ payload.keyword_include
  pub keyword_exclude : new.keyword_exclude ≡ payload.keyword_exclude
  pub keyword_match_mode : new.keyword_match_mode ≡ payload.keyword_match_mode
  pub media_types : new.media_types ≡ payload.media_types
  pub preserve_links : new.preserve_links ≡ payload.preserve_links
  pub preserve_caption : new.preserve_caption ≡ payload.preserve_caption
  pub sources :
      (c : ℕ) → count_where (λ i. i == c) new.sources ≡ once_if (mem_id c payload.source_chat_ids)
  pub destinations :
      (c : ℕ)
      → count_where (λ d. d.chat_id == c) new.destinations
        ≡ once_if (mem_id c payload.destination_chat_ids)
  pub places :
      (n : ℕ) (d : RuleDestination) → get_elem? new.destinations n ≡ some d → d.position ≡ n
  pub version : new.version ≡ rule.version + 1
  pub status : new.status ≡ rule.status
  pub id : new.id ≡ rule.id
  pub user_id : new.user_id ≡ rule.user_id
  pub connection_id : new.connection_id ≡ rule.connection_id
  pub max_attempts : new.max_attempts ≡ rule.max_attempts
  pub paused_reason_code : new.paused_reason_code ≡ rule.paused_reason_code

-- What `update` may do: refuse and return no database, or store the edited rule in the place of the old
-- one.
abbrev pub IsUpdated :
    Bool → RuleInput → ForwardingRule → Result (ForwardingRule × Database) → Type 0
IsUpdated valid payload rule result =
    ((valid ≡ false) × ((code : String) × (result ≡ err code)))
    ⊎ ((valid ≡ true)
        × ((new : ForwardingRule) × ((after : Database) × ((result ≡ ok (new, after))
                × (get_rule after rule.id ≡ some new)
                × IsEdit payload rule new))))
