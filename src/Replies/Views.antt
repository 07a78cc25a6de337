-- ===== src/Replies/Views.antt =====
-- repositories/autoreply.py: the log as a map from a person to the last answer.
use insightxadsflow.Prelude.{
  ℕ, ◌+◌, ◌*◌, ◌-◌, ◌≤◌, ◌≡◌, refl, sym, ap, ◌∙◌, Bool, true, false, List, Option, some, none,
  if◌then◌else◌, leb, ltb, inl, inr, arith, ==-refl, Bool-cases, find_where, count_where,
}
use insightxadsflow.Prelude.Int.{ℤ, pos, negsuc, eqb}
use insightxadsflow.Models.{PeerType, AutoReplyLog, same_peer, second}
use insightxadsflow.Replies.Slots.{claim_slot, SlotKey, same_key, key_of, is_slot}

-- Who was answered, when last and how often.
abbrev pub Slots : Type 0
Slots = SlotKey → Option (ℕ × ℕ)

abbrev pub answer_of : AutoReplyLog → ℕ × ℕ
answer_of row = (row.replied_at, row.reply_count)

abbrev pub view_row : Option AutoReplyLog → Option (ℕ × ℕ)
view_row none = none
view_row (some row) = some (answer_of row)

unfoldable pub view : List AutoReplyLog → Slots
view rows k = view_row (find_where (is_slot k) rows)

abbrev pub set_slot : SlotKey → Option (ℕ × ℕ) → Slots → Slots
set_slot k v slots l = if same_key l k then v else slots l

-- The specification of a claim: the first one succeeds, a later one after the cooldown only.
abbrev pub claim_spec : ℕ → SlotKey → ℕ → Slots → Bool × Slots
claim_spec now k cooldown_s slots = elim (slots k) [
  | none ↦ (true, set_slot k (some (now, 1)) slots)
  | some (t, n) ↦
      if ltb (t + cooldown_s * second) now
      then (true, set_slot k (some (now, n + 1)) slots)
      else (false, slots)
]

-- The specification of a release: the only answer is forgotten, a later one is taken back to time 0.
abbrev pub release_spec : SlotKey → Slots → Slots
release_spec k slots = elim (slots k) [
  | none ↦ slots
  | some (t, n) ↦ if leb n 1 then set_slot k none slots else set_slot k (some (0, n - 1)) slots
]

-- The primary key: one row at most for each person.
unfoldable pub IsKeyed : List AutoReplyLog → Type 0
IsKeyed rows = (k : SlotKey) → count_where (is_slot k) rows ≤ 1

same_peer_lem : (p q : PeerType) → same_peer p q ≡ true → p ≡ q
same_peer_lem PeerType.user PeerType.user h = refl
same_peer_lem PeerType.chat PeerType.chat h = refl
same_peer_lem PeerType.channel PeerType.channel h = refl
same_peer_lem PeerType.user PeerType.chat h = ground arith
same_peer_lem PeerType.user PeerType.channel h = ground arith
same_peer_lem PeerType.chat PeerType.user h = ground arith
same_peer_lem PeerType.chat PeerType.channel h = ground arith
same_peer_lem PeerType.channel PeerType.user h = ground arith
same_peer_lem PeerType.channel PeerType.chat h = ground arith

same_peer_refl : (p : PeerType) → same_peer p p ≡ true
same_peer_refl PeerType.user = refl
same_peer_refl PeerType.chat = refl
same_peer_refl PeerType.channel = refl

eqb_lem : (a b : ℤ) → eqb a b ≡ true → a ≡ b
eqb_lem (pos a) (pos b) h = ground arith
eqb_lem (pos a) (negsuc b) h = ground arith
eqb_lem (negsuc a) (pos b) h = ground arith
eqb_lem (negsuc a) (negsuc b) h = ground arith

eqb_refl : (a : ℤ) → eqb a a ≡ true
eqb_refl (pos a) = ==-refl a
eqb_refl (negsuc a) = ==-refl a

pub same_key_lem : (k l : SlotKey) → same_key k l ≡ true → k ≡ l
same_key_lem k l h =
    ground (arith, same_peer_lem k.peer_type l.peer_type, eqb_lem k.peer_id l.peer_id)

pub same_key_refl : (k : SlotKey) → same_key k k ≡ true
same_key_refl k = ground (arith, same_peer_refl k.peer_type, eqb_refl k.peer_id)

-- Rows of one person are no rows of another.
pub is_slot_apart :
    (k l : SlotKey)
    → same_key l k ≡ false
    → (x : AutoReplyLog) → is_slot k x ≡ true
    → is_slot l x ≡ false
is_slot_apart k l apart x h = ap (same_key l) (sym (same_key_lem k (key_of x) h)) ∙ apart

pub is_slot_other :
    (k l : SlotKey)
    → same_key l k ≡ false
    → (x : AutoReplyLog) → is_slot l x ≡ true
    → is_slot k x ≡ false
is_slot_other k l apart x h = elim (Bool-cases (is_slot k x)) [
  | inl e ↦ ground (arith, is_slot_apart k l apart x e)
  | inr e ↦ e
]

-- A claim that fails changes nothing.
pub claim_refused :
    (now : ℕ) (k : SlotKey) (cooldown_s : ℕ) (rows : List AutoReplyLog)
    → (claim_slot now k cooldown_s rows).0 ≡ false
    → (claim_slot now k cooldown_s rows).1 ≡ rows
unfolding claim_slot
claim_refused now k cooldown_s rows h = ground arith
