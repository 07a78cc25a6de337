-- ===== src/Posting/Endings.antt =====
-- How `settle` of services/broadcast.py ends a round.
use insightxadsflow.Prelude.{
  zero, suc, ℕ, ◌+◌, ◌*◌, ◌≡◌, Bool, true, false, [], ◌∷◌, ◌++◌, Option, some, none,
}
use insightxadsflow.Models.{BroadcastStatus, Broadcast, Database, is_sending, second, get_broadcast}
use insightxadsflow.Broadcasts
use insightxadsflow.Posting.Rounds.{completed}

-- Whether the broadcast is done for good, and its row, after a round of it.
abbrev pub is_last : Option ℕ → Bool
is_last none = true
is_last (some _) = false

abbrev pub ended : ℕ → Broadcast → Option ℕ → Broadcast
ended now b none = completed now b
ended now b (some repeat_every_s) = record b { next_run_at = some (now + repeat_every_s * second) }

-- Where the ad does not repeat, by `None` or by 0, it is completed now and the answer is true; otherwise
-- it is still sending, its next round is one interval from now, and the answer is false.
abbrev pub Ends : ℕ → Option ℕ → Bool → Broadcast → Type 0
Ends now none answer row =
    (answer ≡ true)
    × (row.status ≡ BroadcastStatus.completed)
    × (row.completed_at ≡ some now)
    × (row.next_run_at ≡ none)
Ends now (some zero) answer row =
    (answer ≡ true)
    × (row.status ≡ BroadcastStatus.completed)
    × (row.completed_at ≡ some now)
    × (row.next_run_at ≡ none)
Ends now (some (suc s)) answer row =
    (answer ≡ false)
    × (is_sending row.status ≡ true)
    × (row.next_run_at ≡ some (now + suc s * 1000000))

-- The end of a round of `b`.
pub record IsRoundEnd (now : ℕ) (b : Broadcast) (db : Database) (result : Bool × Database)
    : Type 0 where
  pub sending : is_sending b.status ≡ true
  pub nothing_left : Broadcasts.remaining_count db b.id ≡ 0
  pub row : Broadcast
  pub found : get_broadcast result.1 b.id ≡ some row
  pub counted : row.repeat_count ≡ b.repeat_count + 1
  pub ends : Ends now b.repeat_every_s result.0 row
  pub archived_once : result.1.archived ≡ db.archived ++ b.id ∷ []
