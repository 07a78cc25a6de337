-- ===== src/AccessRequests.antt =====
-- repositories/access_requests.py: who asked to use the deployment, and what was decided.
pub mod Decisions
use insightxadsflow.Prelude.{
  ℕ, Bool, true, false, List, [], ◌∷◌, ◌++◌, Option, none, some, ◌==◌, length, take, select,
  find_where, update_where, order_by,
}
use insightxadsflow.Models.{Text}

pub data AccessRequestStatus : Type 0 where
  pending approved denied : AccessRequestStatus

pub record AccessRequest : Type 0 where
  pub id : ℕ
  pub telegram_user_id : ℕ
  pub telegram_username : Option Text
  pub status : AccessRequestStatus
  pub decided_at : Option ℕ
  pub decided_by : Option ℕ
  pub created_at : ℕ

abbrev pub is_from : ℕ → AccessRequest → Bool
is_from telegram_user_id r = r.telegram_user_id == telegram_user_id

unfoldable pub get : List AccessRequest → ℕ → Option AccessRequest
get rows telegram_user_id = find_where (is_from telegram_user_id) rows

unfoldable pub by_id : List AccessRequest → ℕ → Option AccessRequest
by_id rows request_id = find_where (λ r. r.id == request_id) rows

-- One call of `record`: the id that `uuid4` draws, the time, and the arguments.
pub record Ask : Type 0 where
  pub id : ℕ
  pub now : ℕ
  pub telegram_user_id : ℕ
  pub username : Option Text

abbrev pub new_request : Ask → AccessRequest
new_request ask = record {
  id = ask.id;
  telegram_user_id = ask.telegram_user_id;
  telegram_username = ask.username;
  status = AccessRequestStatus.pending;
  decided_at = none;
  decided_by = none;
  created_at = ask.now;
}

-- `if ... username and row.telegram_username != username`: an equal name is stored again here, which
-- changes nothing.
abbrev pub renamed : Option Text → AccessRequest → AccessRequest
renamed (some (c ∷ t)) r = record r { telegram_username = some (c ∷ t) }
renamed _ r = r

abbrev pub renamed_row : Option Text → Option AccessRequest → Option AccessRequest
renamed_row username none = none
renamed_row username (some r) = some (renamed username r)

-- The upsert, given the row that the person has, and what follows it.
unfoldable pub stored :
    Ask
    → Option AccessRequest
    → List AccessRequest
    → (Option AccessRequest × Bool) × List AccessRequest
unfolding get
stored ask none rows =
    let rows₁ = rows ++ new_request ask ∷ [] in ((get rows₁ ask.telegram_user_id, true), rows₁)
stored ask (some r) rows = (
  (some (renamed ask.username r), false),
  update_where (is_from ask.telegram_user_id) (renamed ask.username) rows,
)

-- `record`: the row, where `none` is a failed assertion, and whether it is new.
unfoldable pub record_request :
    Ask → List AccessRequest → (Option AccessRequest × Bool) × List AccessRequest
unfolding stored
record_request ask rows = stored ask (get rows ask.telegram_user_id) rows

unfoldable pub decide :
    ℕ → AccessRequest → Bool → Option ℕ → List AccessRequest → AccessRequest × List AccessRequest
decide now request is_approved decided_by rows =
    let new = record request {
      status = elim is_approved [
        | true ↦ AccessRequestStatus.approved
        | false ↦ AccessRequestStatus.denied
      ];
      decided_at = some now;
      decided_by = decided_by;
    } in
    (new, update_where (λ r. r.id == request.id) (λ r. new) rows)

abbrev is_pending : AccessRequest → Bool
is_pending r = elim r.status [
  | AccessRequestStatus.pending ↦ true
  | AccessRequestStatus.approved ↦ false
  | AccessRequestStatus.denied ↦ false
]

-- `pending`
unfoldable pub pending_requests : ℕ → List AccessRequest → List AccessRequest
unfolding order_by
pending_requests limit rows = take limit (order_by (λ r. r.created_at) (select is_pending rows))

-- The list that is counted has the default limit.
unfoldable pub pending_count : List AccessRequest → ℕ
unfolding pending_requests
pending_count rows = length (pending_requests 100 rows)
