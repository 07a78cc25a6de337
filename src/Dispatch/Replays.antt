-- ===== src/Dispatch/Replays.antt =====
-- services/dispatch.py: a message that comes again creates nothing.
use insightxadsflow.Prelude.{
  ℕ, suc, ◌≡◌, refl, sym, ap, ◌∙◌, true, List, order_by, [], ◌∷◌, subst, All-map, All, inl, inr,
  Bool-cases,
}
use insightxadsflow.Models.{
  InboundMessage, ForwardingRule, TelegramChat, Database, Text, put_rule, ForwardingJob,
}
use insightxadsflow.Text.{Unicode}
use insightxadsflow.Events.{record_event, to_ref}
use insightxadsflow.Filters.{evaluate, filter_config_for}
use insightxadsflow.Leases.{mem_id}
use insightxadsflow.Jobs.{has_key}
use insightxadsflow.Jobs.Creation.{
  has_key-create_if_absent, has_key-create_if_absent_mono, create_if_absent_present,
}
use insightxadsflow.Keys.{Library}
use insightxadsflow.Keys.RoundTrip.{key_text_reordered}
use insightxadsflow.Dispatch.{
  chats_of, DispatchResult, key_for, is_open, order_for, queue_one, queue_from, after_filters,
  dispatch_for_rule, destination_chats, note_album,
}
use insightxadsflow.Dispatch.Created.{destination_chats_same, either_jobs}

-- Every open destination has a job with its key.
abbrev pub IsCovered : (TelegramChat → Text) → List ForwardingJob → List TelegramChat → Type 0
IsCovered key jobs = All (λ d. is_open d ≡ true → has_key (key d) jobs ≡ true)

module _ (u : Unicode) (lib : Library) (uuid4 : ℕ → ℕ) (now : ℕ) (connection_id : ℕ)
    (message : InboundMessage) (first : ℕ) (rest : List ℕ) (source_chat : TelegramChat)
    (rule : ForwardingRule) where
  abbrev key : TelegramChat → Text
  key = key_for u lib uuid4 now connection_id message first rest source_chat rule

  abbrev one : ℕ → TelegramChat → DispatchResult × Database → DispatchResult × Database
  one = queue_one u lib uuid4 now connection_id message first rest source_chat rule

  abbrev from : ℕ → List TelegramChat → DispatchResult × Database → DispatchResult × Database
  from = queue_from u lib uuid4 now connection_id message first rest source_chat rule

  has_key-queue_one :
      (k : Text) (index : ℕ) (destination : TelegramChat) (result : DispatchResult) (db : Database)
      → has_key k db.jobs ≡ true
      → has_key k (one index destination (result, db)).1.jobs ≡ true
  unfolding queue_one record_event
  has_key-queue_one k index destination result db h = elim (Bool-cases (is_open destination)) [
    | inl e ↦ rw e (has_key-create_if_absent_mono k now _ db h)
    | inr e ↦ rw e h
  ]

  has_key-queue_from :
      (k : Text) (index : ℕ) (later : List TelegramChat) (state : DispatchResult × Database)
      → has_key k state.1.jobs ≡ true
      → has_key k (from index later state).1.jobs ≡ true
  unfolding queue_from
  has_key-queue_from k index [] state h = h
  has_key-queue_from k index (destination ∷ later) (result, db) h =
      has_key-queue_from k (suc index) later _ (has_key-queue_one k index destination result db h)

  has_key-queue_one_own :
      (index : ℕ) (destination : TelegramChat) (result : DispatchResult) (db : Database)
      → is_open destination ≡ true
      → has_key (key destination) (one index destination (result, db)).1.jobs ≡ true
  unfolding queue_one order_for
  has_key-queue_one_own index destination result db e = rw e (
      has_key-create_if_absent now
        (order_for u lib uuid4 now connection_id message first rest source_chat rule index
          destination db)
        db)

  queue_from-IsCovered :
      (index : ℕ) (later : List TelegramChat) (state : DispatchResult × Database)
      → IsCovered key (from index later state).1.jobs later
  unfolding queue_from
  queue_from-IsCovered index [] state = tt
  queue_from-IsCovered index (destination ∷ later) (result, db) = (
    λ e.
        has_key-queue_from (key destination) (suc index) later _
          (has_key-queue_one_own index destination result db e),
    queue_from-IsCovered (suc index) later _,
  )

  -- Nothing is created for destinations that have a job with their key.
  queue_one_covered :
      (index : ℕ) (destination : TelegramChat) (result : DispatchResult) (db : Database)
      → (is_open destination ≡ true → has_key (key destination) db.jobs ≡ true)
      → ((one index destination (result, db)).1.jobs ≡ db.jobs)
        × ((one index destination (result, db)).0.created_job_ids ≡ result.created_job_ids)
  unfolding queue_one order_for record_event
  queue_one_covered index destination result db covered = elim (Bool-cases (is_open destination)) [
    | inl e ↦
        rw
          (
            e,
            create_if_absent_present now
                (order_for u lib uuid4 now connection_id message first rest source_chat rule index
                  destination db)
                db (covered e),
          )
          (refl, refl)
    | inr e ↦ rw e (refl, refl)
  ]

  queue_from_covered :
      (index : ℕ) (later : List TelegramChat) (state : DispatchResult × Database)
      → IsCovered key state.1.jobs later
      → ((from index later state).1.jobs ≡ state.1.jobs)
        × ((from index later state).0.created_job_ids ≡ state.0.created_job_ids)
  unfolding queue_from
  queue_from_covered index [] state covered = (refl, refl)
  queue_from_covered index (destination ∷ later) (result, db) covered =
      let (jobs, ids) = queue_one_covered index destination result db covered.0 in
      let (jobs', ids') =
        queue_from_covered (suc index) later (one index destination (result, db))
          (subst (λ all. IsCovered key all later) (sym jobs) covered.1) in
      (jobs' ∙ jobs, ids' ∙ ids)

  jobs-note_album :
      (db : Database)
      → (note_album u lib uuid4 now connection_id message first rest source_chat rule db).jobs
        ≡ db.jobs
  unfolding record_event
  jobs-note_album db = either_jobs message.partial_album _ db refl

  -- Where the filters pass, every open destination is covered afterwards.
  dispatch_for_rule-IsCovered :
      (result : DispatchResult) (db : Database)
      → (evaluate u message (filter_config_for rule)).passed ≡ true
      → IsCovered key
          (dispatch_for_rule u lib uuid4 now connection_id message first rest source_chat rule
            result db).1.jobs
          (destination_chats db rule)
  unfolding dispatch_for_rule after_filters put_rule record_event
  dispatch_for_rule-IsCovered result db e =
      rw (e, after_filters, jobs-note_album (from 0 (destination_chats db rule) (result, db)).1)
        (queue_from-IsCovered 0 (destination_chats db rule) (result, db))

  dispatch_for_rule_covered :
      (result : DispatchResult) (db : Database)
      → IsCovered key db.jobs (destination_chats db rule)
      → ((dispatch_for_rule u lib uuid4 now connection_id message first rest source_chat rule result
            db).1.jobs
          ≡ db.jobs)
        × ((dispatch_for_rule u lib uuid4 now connection_id message first rest source_chat rule
              result db).0.created_job_ids
            ≡ result.created_job_ids)
  unfolding dispatch_for_rule after_filters put_rule record_event
  dispatch_for_rule_covered result db covered =
      elim (Bool-cases (evaluate u message (filter_config_for rule)).passed) [
        | inr e ↦ rw (e, after_filters) (refl, refl)
        | inl e ↦
            rw
              (
                e,
                after_filters,
                jobs-note_album (from 0 (destination_chats db rule) (result, db)).1,
              )
              (queue_from_covered 0 (destination_chats db rule) (result, db) covered)
      ]

places_same :
    (rule rule' : ForwardingRule) (a b : Database)
    → a.chats ≡ b.chats
    → rule'.destinations ≡ rule.destinations
    → destination_chats a rule' ≡ destination_chats b rule
unfolding destination_chats
places_same rule rule' a b chats places =
    destination_chats_same a b chats rule'
    ∙ ap (λ ds. chats_of b (order_by (λ d. d.position) ds)) places

module _ (u : Unicode) (lib : Library) (uuid4 uuid4' : ℕ → ℕ) (now now' : ℕ)
    (connection_id connection_id' : ℕ) (message message' : InboundMessage) (first : ℕ)
    (rest : List ℕ) (first' : ℕ) (rest' : List ℕ) (source_chat source_chat' : TelegramChat)
    (rule rule' : ForwardingRule) where
  -- Once a rule whose filters passed it has dispatched a message, the same message creates no job
  -- again: not at a later time, not with its album in another order, and not for a rule that was
  -- edited, as long as its id and its list of destinations are the same, the chats are as they were,
  -- and the keys of the jobs there were are still there.
  pub dispatch_again :
      (passed : (evaluate u message (filter_config_for rule)).passed ≡ true)
      (same_rule : rule'.id ≡ rule.id) (same_places : rule'.destinations ≡ rule.destinations)
      (same_source : message'.source ≡ message.source)
      (same_ids : (i : ℕ) → mem_id i (first ∷ rest) ≡ mem_id i (first' ∷ rest'))
      (result result' : DispatchResult) (db db' : Database) (same_chats : db'.chats ≡ db.chats)
      (kept : (k : Text)
        → has_key k
            (dispatch_for_rule u lib uuid4 now connection_id message first rest source_chat rule
              result db).1.jobs
          ≡ true
        → has_key k db'.jobs ≡ true)
      → ((dispatch_for_rule u lib uuid4' now' connection_id' message' first' rest' source_chat'
            rule' result' db').1.jobs
          ≡ db'.jobs)
        × ((dispatch_for_rule u lib uuid4' now' connection_id' message' first' rest' source_chat'
              rule' result' db').0.created_job_ids
            ≡ result'.created_job_ids)
  dispatch_again passed same_rule same_places same_source same_ids result result' db db' same_chats
        kept =
      dispatch_for_rule_covered u lib uuid4' now' connection_id' message' first' rest' source_chat'
        rule' result' db'
        (subst (IsCovered _ db'.jobs) (sym (places_same rule rule' db' db same_chats same_places)) (
          All-map _ _
            (λ d covered e.
              subst (λ k. has_key k db'.jobs ≡ true)
                (rw (same_rule, same_source)
                  (key_text_reordered lib rule.id message.source (to_ref d) first rest first' rest'
                    same_ids))
                (kept _ (covered e)))
            (destination_chats db rule)
            (dispatch_for_rule-IsCovered u lib uuid4 now connection_id message first rest
              source_chat rule result db passed)))
