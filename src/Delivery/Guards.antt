-- ===== src/Delivery/Guards.antt =====
-- When `execute_job` of services/delivery.py posts anything.
use insightxadsflow.Prelude.{
  min, ℕ, ◌≡◌, refl, ◌⊎◌, inl, inr, true, false, List, [], ◌∷◌, ◌++◌, Option, some, none,
  Bool-cases, Option-cases, ◌&&◌, ◌==◌,
}
use insightxadsflow.Models.{
  Settings, TelegramAdapter, TelegramConnection, TelegramChat, ForwardingRule, ForwardingJob,
  Database, Send, Reply, returned, raised, DeliveryReceipt, is_connected, is_rule_active, is_copy,
  get_rule, get_chat,
}
use insightxadsflow.Text.{Unicode}
use insightxadsflow.Errors.{classify_error}
use insightxadsflow.Events.{to_ref}
use insightxadsflow.Users.{is_active}
use insightxadsflow.Delivery.{
  is_ambiguous, execute_job, guarded, with_chats, unless_stale, revalidate, deliver, conclude,
  handle_stale_job, refusal, send_of,
}
use insightxadsflow.Delivery.Sends.{sends-handle_classified}

module _ (u : Unicode) (settings : Settings) (adapter : TelegramAdapter) (uniform : ℕ → ℕ) (now : ℕ)
    (job : ForwardingJob) (connection : TelegramConnection) (db : Database) where
  -- What holds whenever the job posts `call`.
  pub record MaySend (call : Send) : Type 0 where
    pub rule : ForwardingRule
    pub source : TelegramChat
    pub destination : TelegramChat
    pub rule_found : get_rule db job.rule_id ≡ some rule
    pub source_found : get_chat db job.source_chat_id ≡ some source
    pub destination_found : get_chat db job.destination_chat_id ≡ some destination
    pub owner_active : is_active db rule.user_id ≡ true
    pub connected : is_connected connection.status ≡ true
    pub rule_active : is_rule_active rule.status ≡ true
    pub not_stale :
        ((job.rule_version == rule.version) ≡ true)
        ⊎ (handle_stale_job u job rule source destination.id ≡ none)
    pub access_confirmed : refusal (adapter.check_destination_access (to_ref destination)) ≡ none
    pub not_protected : (is_copy rule.forward_mode && source.has_protected_content) ≡ false
    pub is_its_call : call ≡ send_of job rule source destination

  -- Nothing was posted, or one call that may be.
  abbrev pub PostsAtMostOnce : List Send → Type 0
  PostsAtMostOnce sends =
      (sends ≡ db.sends) ⊎ ((call : Send) × MaySend call × (sends ≡ db.sends ++ call ∷ []))

  sends-conclude :
      (rule : ForwardingRule) (destination : TelegramChat) (reply : Reply DeliveryReceipt)
      (later : Database)
      → (conclude u settings adapter uniform now job connection rule destination reply
          later).1.sends
        ≡ later.sends
  unfolding conclude
  sends-conclude rule destination (returned receipt) later = refl
  sends-conclude rule destination (raised exc) later = elim (Bool-cases (is_ambiguous exc.kind)) [
    | inl e ↦ rw e
    | inr e ↦ rw e (
        sends-handle_classified settings uniform now job rule.id destination.id connection
          (min rule.max_attempts settings.max_attempts) later (classify_error u exc))
  ]

  module _ (rule : ForwardingRule) (source destination : TelegramChat) where
    abbrev call : Send
    call = send_of job rule source destination

    sends-deliver :
        ((deliver u settings adapter uniform now job connection rule source destination db).1.sends
          ≡ db.sends)
        ⊎ (((is_copy rule.forward_mode && source.has_protected_content) ≡ false)
            × ((deliver u settings adapter uniform now job connection rule source destination
                  db).1.sends
                ≡ db.sends ++ call ∷ []))
    unfolding deliver
    sends-deliver = elim (Bool-cases (is_copy rule.forward_mode && source.has_protected_content)) [
      | inl e ↦ inl (rw e)
      | inr e ↦ inr (e, rw e (sends-conclude rule destination _ _))
    ]

    -- The call with the facts that hold when it is made; the guards that come before are the
    -- arguments.
    sends-revalidate :
        (found : get_rule db job.rule_id ≡ some rule)
        → get_chat db job.source_chat_id ≡ some source
        → get_chat db job.destination_chat_id ≡ some destination
        → is_active db rule.user_id ≡ true
        → is_connected connection.status ≡ true
        → is_rule_active rule.status ≡ true
        → ((job.rule_version == rule.version) ≡ true)
          ⊎ (handle_stale_job u job rule source destination.id ≡ none)
        → PostsAtMostOnce
            (revalidate u settings adapter uniform now job connection rule source destination
              db).1.sends
    unfolding revalidate
    sends-revalidate found fs fd ow co ac fresh =
        elim (Option-cases (refusal (adapter.check_destination_access (to_ref destination)))) [
          | inr (reason, e) ↦ rw (e, revalidate) (inl refl)
          | inl e ↦
              rw (e, revalidate)
                (elim sends-deliver [
                  | inl same ↦ inl same
                  | inr (safe, posted) ↦ inr (
                    call,
                    record {
                      rule = rule;
                      source = source;
                      destination = destination;
                      rule_found = found;
                      source_found = fs;
                      destination_found = fd;
                      owner_active = ow;
                      connected = co;
                      rule_active = ac;
                      not_stale = fresh;
                      access_confirmed = e;
                      not_protected = safe;
                      is_its_call = refl;
                    },
                    posted,
                  )
                ])
        ]

  sends-unless_stale :
      (rule : ForwardingRule) (source destination : TelegramChat)
      → get_rule db job.rule_id ≡ some rule
      → get_chat db job.source_chat_id ≡ some source
      → get_chat db job.destination_chat_id ≡ some destination
      → is_active db rule.user_id ≡ true
      → is_connected connection.status ≡ true
      → is_rule_active rule.status ≡ true
      → PostsAtMostOnce
          (unless_stale u settings adapter uniform now job connection rule source destination
            db).1.sends
  unfolding unless_stale
  sends-unless_stale rule source destination found fs fd ow co ac =
      elim (Bool-cases (job.rule_version == rule.version)) [
        | inl e ↦ rw e (sends-revalidate rule source destination found fs fd ow co ac (inl e))
        | inr e ↦ elim (Option-cases (handle_stale_job u job rule source destination.id)) [
          | inr (reason, o) ↦ rw (e, o, unless_stale) (inl refl)
          | inl o ↦
              rw (e, o, unless_stale)
                (sends-revalidate rule source destination found fs fd ow co ac (inr o))
        ]
      ]

  sends-with_chats :
      (rule : ForwardingRule) (source destination : Option TelegramChat)
      → get_rule db job.rule_id ≡ some rule
      → get_chat db job.source_chat_id ≡ source
      → get_chat db job.destination_chat_id ≡ destination
      → is_active db rule.user_id ≡ true
      → is_connected connection.status ≡ true
      → is_rule_active rule.status ≡ true
      → PostsAtMostOnce
          (with_chats u settings adapter uniform now job connection rule source destination
            db).1.sends
  unfolding with_chats
  sends-with_chats rule (some source) (some destination) found fs fd ow co ac =
      sends-unless_stale rule source destination found fs fd ow co ac
  sends-with_chats rule (some source) none found fs fd ow co ac = inl refl
  sends-with_chats rule none destination found fs fd ow co ac = inl refl

  sends-guarded :
      (rule : ForwardingRule)
      → get_rule db job.rule_id ≡ some rule
      → PostsAtMostOnce (guarded u settings adapter uniform now job connection rule db).1.sends
  unfolding guarded
  sends-guarded rule found = elim (Bool-cases (is_active db rule.user_id)) [
    | inr ow ↦ rw ow (inl refl)
    | inl ow ↦ rw ow (elim (Bool-cases (is_connected connection.status)) [
      | inr co ↦ rw co (inl refl)
      | inl co ↦ rw co (elim (Bool-cases (is_rule_active rule.status)) [
        | inr ac ↦ rw ac (inl refl)
        | inl ac ↦ rw ac (
            sends-with_chats rule (get_chat db job.source_chat_id)
              (get_chat db job.destination_chat_id) found refl refl ow co ac)
      ])
    ])
  ]

  -- Executing a job posts nothing, or makes exactly one call; and it makes one only if the rule
  -- exists and is active, its owner is active, the connection is active, both chats are there, the
  -- job is not stale or its staleness was cleared, the access check of the destination came back and
  -- allowed it, and the source is not protected where the rule copies. The call is the one that the
  -- rule's mode and the job's ids make.
  pub execute_job_posts_guarded :
      PostsAtMostOnce (execute_job u settings adapter uniform now job connection db).1.sends
  unfolding execute_job
  execute_job_posts_guarded = elim (Option-cases (get_rule db job.rule_id)) [
    | inl e ↦ rw (e, execute_job) (inl refl)
    | inr (rule, e) ↦ rw (e, execute_job) (sends-guarded rule e)
  ]
