-- ===== src/Rules/Validation.antt =====
-- `validate` of services/rules.py: which rules are accepted.
use insightxadsflow.Prelude.{
  ℕ, ◌*◌, ◌≡◌, refl, Bool, true, false, not, ◌&&◌, List, [], ◌∷◌, ◌++◌, ◌==◌, any, length, leb, ltb,
  arith, String,
}
use insightxadsflow.Models.{Settings, TelegramConnection, TelegramChat, Database}
use insightxadsflow.Leases.{mem_id}
use insightxadsflow.Rules.{
  Result, ok, err, ◌>>◌, refuse, RuleInput, once, get_many, no_ids, can_read, can_post,
  check_connection, check_sources, check_destinations, validate,
}

abbrev pub accepted {ℓ} : {A : Type ℓ} → Result A → Bool
accepted (ok a) = true
accepted (err code) = false

abbrev pub all {ℓ} : {A : Type ℓ} → (A → Bool) → List A → Bool
all p [] = true
all p (x ∷ xs) = p x && all p xs

module _ (settings : Settings) (db : Database) (user_id : ℕ) (connection : TelegramConnection)
    (payload : RuleInput) where
  -- What a rule has to meet, in the terms of the rule and not of the tests' order.
  unfoldable pub is_valid : Bool
  is_valid =
      let sources = get_many db user_id payload.source_chat_ids in
      let destinations = get_many db user_id payload.destination_chat_ids in
      not (no_ids payload.source_chat_ids)
      && (not (no_ids payload.destination_chat_ids)
          && (not (ltb settings.max_destinations_per_rule (length payload.destination_chat_ids))
              && (not (ltb settings.max_sources_per_rule (length payload.source_chat_ids))
                  && (leb payload.delay_ms settings.max_rule_delay_ms
                      && (not (
                            ltb (settings.max_rule_spread_s * 1000)
                              (payload.delay_ms * length payload.destination_chat_ids))
                          && (not (
                                any (λ i. mem_id i payload.destination_chat_ids)
                                  payload.source_chat_ids
                                && not payload.allow_source_as_destination)
                              && ((length sources == length (once payload.source_chat_ids))
                                  && ((length destinations
                                        == length (once payload.destination_chat_ids))
                                      && (all (λ c. c.connection_id == connection.id)
                                            (sources ++ destinations)
                                          && (all
                                                (λ c.
                                                  not c.has_protected_content && can_read c.access)
                                                sources
                                              && all (λ c. can_post c.access) destinations))))))))))

unless {ℓ} :
    {A : Type ℓ} (b : Bool) (code : String) (m : Result A) {x : Bool}
    → accepted m ≡ x
    → accepted (refuse b code >> m) ≡ (not b && x)
unless true code m e = refl
unless false code m e = e

unless_not {ℓ} :
    {A : Type ℓ} (b : Bool) (code : String) (m : Result A) {x : Bool}
    → accepted m ≡ x
    → accepted (refuse (not b) code >> m) ≡ (b && x)
unless_not true code m e = e
unless_not false code m e = refl

both {ℓ} :
    {A : Type ℓ} (r : Result (Unit {0})) (m : Result A) {x y : Bool}
    → accepted r ≡ x
    → accepted m ≡ y
    → accepted (r >> m) ≡ (x && y)
both (ok tt) m e f = rw⁻¹ e f
both (err code) m e f = rw⁻¹ e refl

finally {ℓ} :
    {A : Type ℓ} (r : Result (Unit {0})) (a : A) {x : Bool}
    → accepted r ≡ x
    → accepted (r >> ok a) ≡ x
finally (ok tt) a e = e
finally (err code) a e = e

check_connection_lem :
    (connection_id : ℕ) (chats : List TelegramChat)
    → accepted (check_connection connection_id chats)
      ≡ all (λ c. c.connection_id == connection_id) chats
unfolding check_connection
check_connection_lem connection_id [] = refl
check_connection_lem connection_id (chat ∷ rest) =
    unless_not (chat.connection_id == connection_id) _ _ (check_connection_lem connection_id rest)

check_sources_lem :
    (chats : List TelegramChat)
    → accepted (check_sources chats)
      ≡ all (λ c. not c.has_protected_content && can_read c.access) chats
unfolding check_sources
check_sources_lem [] = refl
check_sources_lem (chat ∷ rest) = ground (
  arith,
  unless chat.has_protected_content "protected_source"
      (refuse (not (can_read chat.access)) "source_not_eligible" >> check_sources rest)
      (unless_not (can_read chat.access) "source_not_eligible" (check_sources rest)
        (check_sources_lem rest)),
)

check_destinations_lem :
    (chats : List TelegramChat)
    → accepted (check_destinations chats) ≡ all (λ c. can_post c.access) chats
unfolding check_destinations
check_destinations_lem [] = refl
check_destinations_lem (chat ∷ rest) =
    unless_not (can_post chat.access) _ _ (check_destinations_lem rest)

-- `validate` accepts a rule exactly when it has a source and a destination, not too many of either, a
-- delay and a spread within the limits, no chat on both sides unless that was allowed, every chat
-- found among the user's and on the rule's connection, sources that are readable and not protected,
-- and destinations that may be posted in.
pub validate_iff :
    (settings : Settings) (db : Database) (user_id : ℕ) (connection : TelegramConnection)
    (payload : RuleInput)
    → accepted (validate settings db user_id connection payload)
      ≡ is_valid settings db user_id connection payload
unfolding validate is_valid
validate_iff settings db user_id connection payload =
    let from = payload.source_chat_ids in
    let to = payload.destination_chat_ids in
    let sources = get_many db user_id from in
    let destinations = get_many db user_id to in
    let spread = payload.delay_ms * length to in
    let last =
      finally (check_destinations destinations) (sources, destinations)
        (check_destinations_lem destinations) in
    let readable = both (check_sources sources) _ (check_sources_lem sources) last in
    let here =
      both (check_connection connection.id (sources ++ destinations)) _
        (check_connection_lem connection.id (sources ++ destinations)) readable in
    let known =
      unless_not (length destinations == length (once to)) "unknown_destination_chat" _ here in
    let known' = unless_not (length sources == length (once from)) "unknown_source_chat" _ known in
    let apart =
      unless (any (λ i. mem_id i to) from && not payload.allow_source_as_destination)
        "source_is_also_destination" _ known' in
    let short =
      unless (ltb (settings.max_rule_spread_s * 1000) spread) "delay_spread_too_long" _ apart in
    let bounded =
      unless_not (leb payload.delay_ms settings.max_rule_delay_ms) "delay_out_of_bounds" _ short in
    let few =
      unless (ltb settings.max_sources_per_rule (length from)) "too_many_sources" _ bounded in
    let few' =
      unless (ltb settings.max_destinations_per_rule (length to)) "too_many_destinations" _ few in
    let filled = unless (no_ids to) "no_destinations" _ few' in
    unless (no_ids from) "no_sources" _ filled
