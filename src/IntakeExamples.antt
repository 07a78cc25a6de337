-- ===== src/IntakeExamples.antt =====
-- The theorems on keys, on dispatch and on rules at work on the small database.
use insightxadsflow.Prelude.{
  ℕ, ◌+◌, ◌≡◌, refl, true, false, [], ◌∷◌, some, All, arith, count_where, ◌==◌,
}
use insightxadsflow.Prelude.Int.{pos}
use insightxadsflow.Models.{
  get_chat, default_settings, PeerType, Database, ForwardMode, KeywordMatchMode,
}
use insightxadsflow.Text.{ascii}
use insightxadsflow.Filters.{normalize_media_types, evaluate, filter_config_for}
use insightxadsflow.Leases.{mem_id}
use insightxadsflow.Keys.{key_text, Library, parts, join, build_idempotency_key}
use insightxadsflow.Keys.Decimal.{decimal}
use insightxadsflow.Keys.Joining.{IsWhole}
use insightxadsflow.Keys.RoundTrip.{
  read_key, read_key-join, build_idempotency_key_reordered, decimal-IsWhole,
}
use insightxadsflow.Dispatch.{
  DispatchResult, no_result, dispatch_from, dispatch_for_rule, list_active_with_source,
}
use insightxadsflow.Dispatch.Created.{Grows, IsJustified, dispatch_from-IsJustified}
use insightxadsflow.Dispatch.Replays.{dispatch_again}
use insightxadsflow.Rules.{RuleInput, validate, pause}
use insightxadsflow.Rules.Validation.{accepted, is_valid, validate_iff}
use insightxadsflow.Rules.Lifecycle.{is_queued_for, pause_stops_rule}
use insightxadsflow.Samples.{account, chat, rule, db, post, person, open_db}

-- Ids in decimal, and a digest that is what it is made of.
abbrev simple : Library
simple = record { uuid_text = decimal; sha256 = λ bytes. bytes }

simple-IsWhole : (id : ℕ) → IsWhole (simple.uuid_text id)
simple-IsWhole = decimal-IsWhole

read_key_example :
    read_key (join (parts simple 7 (person 10) 42 (person 20)))
    ≡ some (record {
      rule = decimal 7;
      source_type = PeerType.user;
      source_id = pos 10;
      anchor = 42;
      destination_type = PeerType.user;
      destination_id = pos 20;
    })
read_key_example = read_key-join simple simple-IsWhole 7 (person 10) 42 (person 20)

same_album : (i : ℕ) → mem_id i (43 ∷ 42 ∷ []) ≡ mem_id i (42 ∷ 43 ∷ [])
same_album i = ground arith

reordered_example :
    build_idempotency_key simple 7 (person 10) (43 ∷ 42 ∷ []) (person 20)
    ≡ build_idempotency_key simple 7 (person 10) (42 ∷ 43 ∷ []) (person 20)
reordered_example =
    build_idempotency_key_reordered simple 7 (person 10) (person 20) 43 (42 ∷ []) 42 (43 ∷ [])
      same_album

abbrev ids : ℕ → ℕ
ids n = n + 1000

dispatch_from_example :
    (done : DispatchResult × Database) × (dispatch_from ascii simple ids 9 5 post
        (chat 10)
        (42 ∷ [])
        open_db
      ≡ some done)
    × Grows (IsJustified ascii simple ids 9 5 post 42 [] (chat 10) open_db) open_db done.1
dispatch_from_example = dispatch_from-IsJustified ascii simple ids 9 5 post 42 [] (chat 10) open_db

passes : (evaluate ascii post (filter_config_for rule)).passed ≡ true
unfolding evaluate filter_config_for normalize_media_types
passes = refl

abbrev first_time : DispatchResult × Database
first_time = dispatch_for_rule ascii simple ids 9 5 post 42 [] (chat 10) rule no_result open_db

first_chats : first_time.1.chats ≡ open_db.chats
unfolding dispatch_for_rule normalize_media_types get_chat key_text join decimal
first_chats = refl

dispatch_again_example :
    ((dispatch_for_rule ascii simple ids 99 5 post 42 []
        (chat 10)
        rule
        no_result
        first_time.1).1.jobs
      ≡ first_time.1.jobs)
    × ((dispatch_for_rule ascii simple ids 99 5 post 42 []
          (chat 10)
          rule
          no_result
          first_time.1).0.created_job_ids
        ≡ [])
dispatch_again_example =
    dispatch_again ascii simple ids ids 9 99 5 5 post post 42 [] 42 [] (chat 10) (chat 10) rule rule
      passes refl refl refl (λ i. refl) no_result no_result open_db first_time.1 first_chats
      (λ k h. h)

abbrev input : RuleInput
input = record {
  name = [];
  connection_id = 5;
  source_chat_ids = 10 ∷ [];
  destination_chat_ids = 20 ∷ 20 ∷ [];
  forward_mode = ForwardMode.forward;
  delay_ms = 5000;
  keyword_include = [];
  keyword_exclude = [];
  keyword_match_mode = KeywordMatchMode.substring;
  media_types = [];
  preserve_links = true;
  preserve_caption = true;
  allow_source_as_destination = false;
}

input_accepted : accepted (validate default_settings open_db 1 account input) ≡ true
unfolding validate
input_accepted = refl

validate_iff_example :
    accepted (validate default_settings open_db 1 account input)
    ≡ is_valid default_settings open_db 1 account input
validate_iff_example = validate_iff default_settings open_db 1 account input

pause_example :
    (count_where (is_queued_for 7) (pause 9 rule "rule_paused" db).1.jobs ≡ 0)
    × All
        (λ r. (r.id == 7) ≡ false)
        (list_active_with_source (pause 9 rule "rule_paused" db).1 5 10)
pause_example = pause_stops_rule 9 rule "rule_paused" db 5 10
