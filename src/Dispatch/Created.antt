-- ===== src/Dispatch/Created.antt =====
-- services/dispatch.py: which jobs a message creates.
use insightxadsflow.Prelude.{
  ℕ, suc, ◌+◌, ◌*◌, ◌≡◌, refl, sym, ap, ◌∙◌, Bool, true, false, List, [], ◌∷◌, ◌++◌, some, ◌==◌,
  if◌then◌else◌, any, All, arith, inl, inr, Bool-cases, get_elem?, append_nil, append_assoc,
  All-append, All-select-IsStored, IsStored,
}
use insightxadsflow.Models.{
  InboundMessage, ForwardingRule, RuleDestination, ForwardingJob, TelegramChat, Database, JobStatus,
  is_rule_active, get_chat, put_rule,
}
use insightxadsflow.Text.{Unicode}
use insightxadsflow.Events.{record_event, event}
use insightxadsflow.Filters.{evaluate, filter_config_for}
use insightxadsflow.Jobs.{NewJob, create_if_absent, pending_job, has_key}
use insightxadsflow.Keys.{Library}
use insightxadsflow.Dispatch.{
  DispatchResult, list_active_with_source, chats_of, destination_chats, is_open, order_for, touched,
  note_album, queue_one, queue_from, after_filters, dispatch_for_rule, dispatch_rules,
  dispatch_from, advance_cursor,
}

-- What a step does to the jobs: it adds some that satisfy `P`.
pub record Grows (P : ForwardingJob → Type 0) (db db' : Database) : Type 0 where
  pub created : List ForwardingJob
  pub is_added : db'.jobs ≡ db.jobs ++ created
  pub all_allowed : All P created
  pub same_chats : db'.chats ≡ db.chats

module _ (P : ForwardingJob → Type 0) where
  pub Grows-refl : (db : Database) → Grows P db db
  Grows-refl db = record {
    created = [];
    is_added = sym (append_nil db.jobs);
    all_allowed = tt;
    same_chats = refl;
  }

  pub Grows-frame : (a b : Database) → b.jobs ≡ a.jobs → b.chats ≡ a.chats → Grows P a b
  Grows-frame a b jobs chats = record {
    created = [];
    is_added = jobs ∙ sym (append_nil a.jobs);
    all_allowed = tt;
    same_chats = chats;
  }

  pub Grows-trans : (a b c : Database) → Grows P a b → Grows P b c → Grows P a c
  Grows-trans a b c g h = record {
    created = g.created ++ h.created;
    is_added =
        h.is_added
        ∙ ap (λ jobs. jobs ++ h.created) g.is_added
        ∙ append_assoc a.jobs g.created h.created;
    all_allowed = All-append P g.created h.created g.all_allowed h.all_allowed;
    same_chats = h.same_chats ∙ g.same_chats;
  }

  Grows-create_if_absent :
      (now : ℕ) (n : NewJob) (db : Database)
      → P (pending_job now n)
      → Grows P db (create_if_absent now n db).1
  unfolding create_if_absent
  Grows-create_if_absent now n db allowed = elim (Bool-cases (has_key n.idempotency_key db.jobs)) [
    | inl e ↦ rw e (Grows-refl db)
    | inr e ↦ rw e (record {
      created = pending_job now n ∷ [];
      is_added = refl;
      all_allowed = (allowed, tt);
      same_chats = refl;
    })
  ]

pub either_jobs : (b : Bool) (c d : Database) → c.jobs ≡ d.jobs → (if b then c else d).jobs ≡ d.jobs
either_jobs true c d same = same
either_jobs false c d same = refl

either_chats :
    (b : Bool) (c d : Database) → c.chats ≡ d.chats → (if b then c else d).chats ≡ d.chats
either_chats true c d same = same
either_chats false c d same = refl

chats_of_same :
    (a b : Database)
    → a.chats ≡ b.chats
    → (ds : List RuleDestination) → chats_of a ds ≡ chats_of b ds
unfolding chats_of get_chat
chats_of_same a b same [] = refl
chats_of_same a b same (d ∷ rest) = rw (same, chats_of_same a b same rest) refl

pub destination_chats_same :
    (a b : Database)
    → a.chats ≡ b.chats
    → (rule : ForwardingRule) → destination_chats a rule ≡ destination_chats b rule
unfolding destination_chats
destination_chats_same a b same rule = chats_of_same a b same _

module _ (u : Unicode) (lib : Library) (uuid4 : ℕ → ℕ) (now : ℕ) (connection_id : ℕ)
    (message : InboundMessage) (first : ℕ) (rest : List ℕ) (source_chat : TelegramChat)
    (db₀ : Database) where
  -- Why a job is created: a rule of the table, of the connection, that is active and reads the chat, whose filters
  -- pass the message, and an open destination at a place of the rule's list. The job is the pending
  -- one that the rule and the place give.
  pub record IsJustified (job : ForwardingJob) : Type 0 where
    pub rule : ForwardingRule
    pub stored : IsStored db₀.rules rule
    pub of_connection : (rule.connection_id == connection_id) ≡ true
    pub reads : any (λ s. s == source_chat.id) rule.sources ≡ true
    pub active : is_rule_active rule.status ≡ true
    pub passed : (evaluate u message (filter_config_for rule)).passed ≡ true
    pub index : ℕ
    pub destination : TelegramChat
    pub listed : get_elem? (destination_chats db₀ rule) index ≡ some destination
    pub may_post : is_open destination ≡ true
    pub before : Database
    pub is_its_job :
        job
        ≡ pending_job now (
            order_for u lib uuid4 now connection_id message first rest source_chat rule index
              destination before)
    pub of_rule : job.rule_id ≡ rule.id
    pub of_version : job.rule_version ≡ rule.version
    pub from_source : job.source_chat_id ≡ source_chat.id
    pub of_message : job.source_message_ids ≡ first ∷ rest
    pub to_destination : job.destination_chat_id ≡ destination.id
    pub is_waiting : job.work.status ≡ JobStatus.pending
    pub in_its_turn : job.work.not_before ≡ now + rule.delay_ms * 1000 * index

  module _ (rule : ForwardingRule) (stored : IsStored db₀.rules rule)
      (of_connection : (rule.connection_id == connection_id) ≡ true)
      (reads : any (λ s. s == source_chat.id) rule.sources ≡ true)
      (active : is_rule_active rule.status ≡ true)
      (passed : (evaluate u message (filter_config_for rule)).passed ≡ true) where
    Grows-queue_one :
        (index : ℕ) (destination : TelegramChat)
        → get_elem? (destination_chats db₀ rule) index ≡ some destination
        → (result : DispatchResult) (db : Database)
        → Grows IsJustified db
            (queue_one u lib uuid4 now connection_id message first rest source_chat rule index
              destination
              (result, db)).1
    unfolding queue_one order_for record_event event
    Grows-queue_one index destination listed result db = elim (Bool-cases (is_open destination)) [
      | inr e ↦ rw e (Grows-frame IsJustified db _ refl refl)
      | inl e ↦ rw e (
          Grows-create_if_absent IsJustified now _ db (record {
            rule = rule;
            stored = stored;
            of_connection = of_connection;
            reads = reads;
            active = active;
            passed = passed;
            index = index;
            destination = destination;
            listed = listed;
            may_post = e;
            before = db;
            is_its_job = refl;
            of_rule = refl;
            of_version = refl;
            from_source = refl;
            of_message = refl;
            to_destination = refl;
            is_waiting = refl;
            in_its_turn = refl;
          }))
    ]

    Grows-queue_from :
        (index : ℕ) (later : List TelegramChat)
        → ((i : ℕ) → get_elem? (destination_chats db₀ rule) (index + i) ≡ get_elem? later i)
        → (state : DispatchResult × Database)
        → Grows IsJustified state.1
            (queue_from u lib uuid4 now connection_id message first rest source_chat rule index
              later state).1
    unfolding queue_from
    Grows-queue_from index [] place state = Grows-refl IsJustified state.1
    Grows-queue_from index (destination ∷ later) place (result, db) =
        Grows-trans IsJustified db _ _
          (Grows-queue_one index destination
            (ap (get_elem? (destination_chats db₀ rule)) (omega arith) ∙ place 0) result db)
          (Grows-queue_from (suc index) later
            (λ i. ap (get_elem? (destination_chats db₀ rule)) (omega arith) ∙ place (suc i))
            (queue_one u lib uuid4 now connection_id message first rest source_chat rule index
              destination (result, db)))

  Grows-note_album :
      (rule : ForwardingRule) (db : Database)
      → Grows IsJustified db (
          put_rule
            (touched u lib uuid4 now connection_id message first rest source_chat rule)
            (note_album u lib uuid4 now connection_id message first rest source_chat rule db))
  unfolding put_rule record_event
  Grows-note_album rule db =
      Grows-frame IsJustified db _ (either_jobs message.partial_album _ db refl)
        (either_chats message.partial_album _ db refl)

  Grows-dispatch_for_rule :
      (rule : ForwardingRule) (stored : IsStored db₀.rules rule)
      (of_connection : (rule.connection_id == connection_id) ≡ true)
      (reads : any (λ s. s == source_chat.id) rule.sources ≡ true)
      (active : is_rule_active rule.status ≡ true) (result : DispatchResult) (db : Database)
      → db.chats ≡ db₀.chats
      → Grows IsJustified db
          (dispatch_for_rule u lib uuid4 now connection_id message first rest source_chat rule
            result db).1
  unfolding dispatch_for_rule after_filters destination_chats put_rule record_event event
  Grows-dispatch_for_rule rule stored of_connection reads active result db same =
      elim (Bool-cases (evaluate u message (filter_config_for rule)).passed) [
        | inr e ↦ rw (e, after_filters) (Grows-frame IsJustified db _ refl refl)
        | inl e ↦
            rw (e, after_filters)
              (Grows-trans IsJustified db _ _
                (Grows-queue_from rule stored of_connection reads active e 0
                  (destination_chats db rule)
                  (λ i.
                    ap (get_elem? (destination_chats db₀ rule)) (omega arith)
                    ∙ ap (λ chats. get_elem? chats i)
                        (sym (destination_chats_same db db₀ same rule)))
                  (result, db))
                (Grows-note_album rule _))
      ]

  -- A rule that `list_active_with_source` may list.
  abbrev IsReader : ForwardingRule → Type 0
  IsReader rule =
      IsStored db₀.rules rule
      × ((rule.connection_id == connection_id) ≡ true)
      × (any (λ s. s == source_chat.id) rule.sources ≡ true)
      × (is_rule_active rule.status ≡ true)

  list_active_IsReader : All IsReader (list_active_with_source db₀ connection_id source_chat.id)
  unfolding list_active_with_source
  list_active_IsReader =
      All-select-IsStored IsReader _ db₀.rules
        (λ rule stored h. (stored, ground arith, ground arith, ground arith))

  Grows-dispatch_rules :
      (rules : List ForwardingRule)
      → All IsReader rules
      → (state : DispatchResult × Database) → state.1.chats ≡ db₀.chats
      → Grows IsJustified state.1
          (dispatch_rules u lib uuid4 now connection_id message first rest source_chat rules
            state).1
  unfolding dispatch_rules
  Grows-dispatch_rules [] readers (result, db) same = Grows-refl IsJustified db
  Grows-dispatch_rules (rule ∷ later) readers (result, db) same =
      let (stored, of_connection, reads, active) = readers.0 in
      let step = Grows-dispatch_for_rule rule stored of_connection reads active result db same in
      Grows-trans IsJustified db _ _ step
        (Grows-dispatch_rules later readers.1 _ (step.same_chats ∙ same))

module _ (u : Unicode) (lib : Library) (uuid4 : ℕ → ℕ) (now : ℕ) (connection_id : ℕ)
    (message : InboundMessage) (first : ℕ) (rest : List ℕ) (source_chat : TelegramChat)
    (db : Database) where
  -- Dispatching a message with ids from a source chat returns, and adds only jobs that are justified:
  -- each is the pending job that a rule of the table, active, of the connection, which reads the chat
  -- and whose filters pass the message, gives for an open destination of its list, `delay_ms` times
  -- the place in the list after now.
  pub dispatch_from-IsJustified :
      (done : DispatchResult × Database) × (dispatch_from u lib uuid4 now connection_id message
          source_chat
          (first ∷ rest)
          db
        ≡ some done)
      × Grows
          (IsJustified u lib uuid4 now connection_id message first rest source_chat db)
          db
          done.1
  unfolding dispatch_from advance_cursor
  dispatch_from-IsJustified = (
    _,
    refl,
    Grows-trans _ db _ _
        (Grows-dispatch_rules u lib uuid4 now connection_id message first rest source_chat db
          (list_active_with_source db connection_id source_chat.id)
          (list_active_IsReader u lib uuid4 now connection_id message first rest source_chat db)
          (_, db) refl)
        (Grows-frame _ _ _ refl refl),
  )
