-- ===== src/AccessRequests/Decisions.antt =====
-- repositories/access_requests.py: asking again.
use insightxadsflow.Prelude.{
  ℕ, suc, ◌≡◌, refl, ap, sym, subst, ◌∙◌, Bool, true, false, ◌&&◌, List, [], ◌∷◌, Option, none,
  some, ◌==◌, is_some, if◌then◌else◌, arith, Bool-cases, inl, inr, update_where, find_where-add,
  find_where-add_found, ==-refl, ◌≤◌,
}
use insightxadsflow.Models.{Text}
use insightxadsflow.AccessRequests.{
  AccessRequest, AccessRequestStatus, Ask, is_from, get, new_request, renamed, stored,
  record_request,
}

-- What was decided about a row, and which row it is.
pub record Decision : Type 0 where
  pub id : ℕ
  pub status : AccessRequestStatus
  pub decided_at : Option ℕ
  pub decided_by : Option ℕ

abbrev pub decision : AccessRequest → Decision
decision r = record {
  id = r.id;
  status = r.status;
  decided_at = r.decided_at;
  decided_by = r.decided_by;
}

abbrev pub decision_of : Option AccessRequest → Option Decision
decision_of none = none
decision_of (some r) = some (decision r)

unfoldable pub asked : List Ask → List AccessRequest → List AccessRequest
unfolding record_request
asked [] rows = rows
asked (ask ∷ rest) rows = asked rest (record_request ask rows).1

-- How many of the calls were for a person and reported a new request.
unfoldable pub news : ℕ → List Ask → List AccessRequest → ℕ
unfolding record_request
news person [] rows = 0
news person (ask ∷ rest) rows =
    let ((row, is_new), rows₁) = record_request ask rows in
    let later = news person rest rows₁ in
    if is_new && (ask.telegram_user_id == person) then suc later else later

renamed_lem :
    (username : Option Text) (person : ℕ) (r : AccessRequest)
    → (is_from person (renamed username r) ≡ is_from person r)
      × (decision (renamed username r) ≡ decision r)
renamed_lem none person r = (refl, refl)
renamed_lem (some []) person r = (refl, refl)
renamed_lem (some (c ∷ t)) person r = (refl, refl)

first_keeps :
    (person : ℕ) (a b : AccessRequest) (o o' : Option AccessRequest)
    → is_from person a ≡ is_from person b
    → decision a ≡ decision b
    → decision_of o ≡ decision_of o'
    → decision_of (if is_from person a then some a else o)
      ≡ decision_of (if is_from person b then some b else o')
first_keeps person a b o o' same kept later = elim (Bool-cases (is_from person b)) [
  | inl e ↦ rw (same, e) (ap some kept)
  | inr e ↦ rw (same, e) later
]

renamed_keeps :
    (p : AccessRequest → Bool) (username : Option Text) (person : ℕ) (rows : List AccessRequest)
    → decision_of (get (update_where p (renamed username) rows) person)
      ≡ decision_of (get rows person)
unfolding get
renamed_keeps p username person [] = refl
renamed_keeps p username person (r ∷ rows) =
    let (same, kept) = renamed_lem username person r in
    let later = renamed_keeps p username person rows in
    let rows' = update_where p (renamed username) rows in
    elim (Bool-cases (p r)) [
      | inl e ↦ rw e (
          first_keeps person (renamed username r) r (get rows' person) (get rows person) same kept
            later)
      | inr e ↦ rw e (first_keeps person r r (get rows' person) (get rows person) refl refl later)
    ]

stored_keeps :
    (ask : Ask) (o : Option AccessRequest) (person : ℕ) (rows : List AccessRequest)
    → is_some (get rows person) ≡ true
    → decision_of (get (stored ask o rows).1 person) ≡ decision_of (get rows person)
unfolding get stored
stored_keeps ask none person rows h =
    ap decision_of (find_where-add_found (is_from person) (new_request ask) rows h)
stored_keeps ask (some r) person rows h =
    renamed_keeps (is_from ask.telegram_user_id) ask.username person rows

is_some-decision_of : (o : Option AccessRequest) → is_some (decision_of o) ≡ is_some o
is_some-decision_of none = refl
is_some-decision_of (some r) = refl

stays :
    (ask : Ask) (person : ℕ) (rows : List AccessRequest)
    → is_some (get rows person) ≡ true
    → is_some (get (record_request ask rows).1 person) ≡ true
unfolding record_request
stays ask person rows h =
    let o = get rows ask.telegram_user_id in
    sym (is_some-decision_of (get (stored ask o rows).1 person))
    ∙ ap is_some (stored_keeps ask o person rows h)
    ∙ is_some-decision_of (get rows person)
    ∙ h

is_new_lem :
    (ask : Ask) (o : Option AccessRequest) (rows : List AccessRequest)
    → is_some o ≡ true
    → (stored ask o rows).0.1 ≡ false
unfolding stored
is_new_lem ask none rows h = ground arith
is_new_lem ask (some r) rows h = refl

not_new :
    (ask : Ask) (person : ℕ) (rows : List AccessRequest)
    → is_some (get rows person) ≡ true
    → ((stored ask (get rows ask.telegram_user_id) rows).0.1 && (ask.telegram_user_id == person))
      ≡ false
not_new ask person rows h = elim (Bool-cases (ask.telegram_user_id == person)) [
  | inl e ↦
      let theirs : ask.telegram_user_id ≡ person = ground arith in
      let known = subst (λ i. is_some (get rows i) ≡ true) (sym theirs) h in
      rw (is_new_lem ask (get rows ask.telegram_user_id) rows known) refl
  | inr e ↦ rw e (ground arith)
]

-- A person who has a row is never reported as new, and what was decided about the person stands, after
-- any sequence of requests of whatever people under whatever names.
pub decisions_stand :
    (person : ℕ) (asks : List Ask) (rows : List AccessRequest)
    (known : is_some (get rows person) ≡ true)
    → (news person asks rows ≡ 0)
      × (decision_of (get (asked asks rows) person) ≡ decision_of (get rows person))
unfolding news asked record_request
decisions_stand person [] rows known = (refl, refl)
decisions_stand person (ask ∷ rest) rows known =
    let rows₁ = (record_request ask rows).1 in
    let (none_new, same) = decisions_stand person rest rows₁ (stays ask person rows known) in
    (
      rw (not_new ask person rows known) none_new,
      same ∙ stored_keeps ask (get rows ask.telegram_user_id) person rows known,
    )

reported_known :
    (ask : Ask) (o : Option AccessRequest) (rows : List AccessRequest)
    → get rows ask.telegram_user_id ≡ o
    → (stored ask o rows).0.1 ≡ true
    → is_some (get (stored ask o rows).1 ask.telegram_user_id) ≡ true
unfolding get stored
reported_known ask none rows e h =
    rw
      (
        find_where-add (is_from ask.telegram_user_id) (new_request ask) rows e,
        ==-refl ask.telegram_user_id,
      )
      refl
reported_known ask (some r) rows e h = ground arith

now_known :
    (ask : Ask) (person : ℕ) (rows : List AccessRequest)
    → ((record_request ask rows).0.1 && (ask.telegram_user_id == person)) ≡ true
    → is_some (get (record_request ask rows).1 person) ≡ true
unfolding record_request
now_known ask person rows h =
    let o = get rows ask.telegram_user_id in
    let theirs : ask.telegram_user_id ≡ person = ground arith in
    let is_new : (stored ask o rows).0.1 ≡ true = ground arith in
    subst (λ i. is_some (get (stored ask o rows).1 i) ≡ true) theirs
      (reported_known ask o rows refl is_new)

-- Among the requests of whatever people, in whatever order, at most one of a person is reported as new.
pub reported_once :
    (person : ℕ) (asks : List Ask) (rows : List AccessRequest) → news person asks rows ≤ 1
unfolding news
reported_once person [] rows = omega arith
reported_once person (ask ∷ rest) rows =
    let rows₁ = (record_request ask rows).1 in
    elim (Bool-cases ((record_request ask rows).0.1 && (ask.telegram_user_id == person))) [
      | inl e ↦
          rw (e, (decisions_stand person rest rows₁ (now_known ask person rows e)).0) (omega arith)
      | inr e ↦ rw e (reported_once person rest rows₁)
    ]
