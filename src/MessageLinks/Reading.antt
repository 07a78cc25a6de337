-- ===== src/MessageLinks/Reading.antt =====
-- domain/message_links.py: links read back.
use insightxadsflow.Prelude.{
  ℕ, zero, suc, ◌≡◌, refl, ap, sym, ◌∙◌, subst, Bool, true, false, not, ◌&&◌, [], ◌∷◌, ◌++◌, Option,
  none, some, ◌==◌, ==-refl, if◌then◌else◌, arith, some_injective,
}
use insightxadsflow.Prelude.Int.{ℤ}
use insightxadsflow.Models.{Text}
use insightxadsflow.Text.{same_text}
use insightxadsflow.Text.Laws.{same_text_refl}
use insightxadsflow.Keys.Decimal.{
  decimal, int_text, read_int, read_decimal, read_decimal-decimal, read_int-int_text,
}
use insightxadsflow.MessageLinks.{
  LinkKind, MessageLink, chat_link, link_for, after_prefix, removeprefix, are_digits, isdigit,
  internal_id, is_addressed, channel_prefix, members_prefix, members_chat, members_message, nowhere,
  get_or_text,
}

-- What a link to a message adds to a link to its chat.
abbrev pub with_message : Text → MessageLink → MessageLink
with_message message_id link = elim link.url [
  | none ↦ link
  | some url ↦ record link { url = some (url ++ b'/' ∷ message_id) }
]

members_message_lem :
    (n : ℕ) (internal : Option Text)
    → members_message n internal ≡ with_message (decimal n) (members_chat internal)
members_message_lem n none = refl
members_message_lem n (some internal) = refl

unnamed :
    (n : ℕ) (addressed : Bool) (internal : Option Text)
    → (if addressed then members_message n internal else nowhere)
      ≡ with_message (decimal n) (if addressed then members_chat internal else nowhere)
unnamed n true internal = members_message_lem n internal
unnamed n false internal = refl

-- A link to a message is the link to its chat with the id of the message behind it, of the same kind, for
-- every chat and every message id that is not 0; where the chat has no link the message has none.
pub link_for-chat_link :
    (chat_kind : Text) (peer_id : ℤ) (username : Option Text) (n : ℕ)
    → link_for chat_kind peer_id username (some (suc n))
      ≡ with_message (decimal (suc n)) (chat_link chat_kind peer_id username)
unfolding link_for chat_link
link_for-chat_link chat_kind peer_id none n =
    unnamed (suc n) (is_addressed chat_kind) (internal_id peer_id)
link_for-chat_link chat_kind peer_id (some []) n =
    unnamed (suc n) (is_addressed chat_kind) (internal_id peer_id)
link_for-chat_link chat_kind peer_id (some (c ∷ name)) n = refl

after_prefix-append : (p t : Text) → after_prefix p (p ++ t) ≡ some t
unfolding after_prefix
after_prefix-append [] t = refl
after_prefix-append (a ∷ p) t = rw (==-refl a) (after_prefix-append p t)

after_prefix_sound : (p t rest : Text) → after_prefix p t ≡ some rest → p ++ rest ≡ t
unfolding after_prefix
after_prefix_sound [] t rest e = sym (some_injective e)
after_prefix_sound (a ∷ p) [] rest e = ground arith
after_prefix_sound (a ∷ p) (b ∷ t) rest e = ground (arith, after_prefix_sound p t rest)

abbrev put_first : ℕ → Option (Text × Text) → Option (Text × Text)
put_first c none = none
put_first c (some (part, later)) = some (c ∷ part, later)

-- The text before the first `/`, and the one after it.
unfoldable cut : Text → Option (Text × Text)
cut [] = none
cut (c ∷ t) = let rest = cut t in if c == b'/' then some ([], t) else put_first c rest

cut-append : (t later : Text) → are_digits t ≡ true → cut (t ++ b'/' ∷ later) ≡ some (t, later)
unfolding cut
cut-append [] later all = refl
cut-append (c ∷ t) later all = ground (arith, cut-append t later)

-- The peer id and the message id that a link for members names.
abbrev both : Option ℤ → Option ℕ → Option (ℤ × ℕ)
both (some p) (some n) = some (p, n)
both _ _ = none

abbrev read_parts : Option (Text × Text) → Option (ℤ × ℕ)
read_parts none = none
read_parts (some parts) = both (read_int (channel_prefix ++ parts.0)) (read_decimal parts.1)

abbrev cut_link : Option Text → Option (Text × Text)
cut_link none = none
cut_link (some t) = cut t

unfoldable pub read_link : Text → Option (ℤ × ℕ)
unfolding cut after_prefix read_int read_decimal
read_link url = read_parts (cut_link (after_prefix members_prefix url))

are_digits-isdigit : (t : Text) → isdigit t ≡ true → are_digits t ≡ true
unfolding isdigit
are_digits-isdigit [] h = refl
are_digits-isdigit (c ∷ t) h = h

after_sound :
    (t internal : Text) (after : Option Text)
    → after_prefix channel_prefix t ≡ after
    → (if not (same_text (get_or_text t after) t) && isdigit (get_or_text t after)
        then some (get_or_text t after)
        else none)
      ≡ some internal
    → (channel_prefix ++ internal ≡ t) × (are_digits internal ≡ true)
after_sound t internal none found e = ground (arith, same_text_refl t)
after_sound t internal (some rest) found e =
    let same : rest ≡ internal = ground arith in
    (
      ap (λ s. channel_prefix ++ s) (sym same) ∙ after_prefix_sound channel_prefix t rest found,
      subst (λ s. are_digits s ≡ true) same (are_digits-isdigit rest (ground arith)),
    )

-- What the two conditions on `internal` are good for.
internal_id_sound :
    (peer_id : ℤ) (internal : Text)
    → internal_id peer_id ≡ some internal
    → (channel_prefix ++ internal ≡ int_text peer_id) × (are_digits internal ≡ true)
unfolding internal_id removeprefix
internal_id_sound peer_id internal e =
    after_sound (int_text peer_id) internal (after_prefix channel_prefix (int_text peer_id)) refl e

read_members :
    (peer_id : ℤ) (n : ℕ) (internal : Text)
    → internal_id peer_id ≡ some internal
    → read_link (members_prefix ++ internal ++ b'/' ∷ decimal n) ≡ some (peer_id, n)
unfolding read_link
read_members peer_id n internal e =
    let (whole, all) = internal_id_sound peer_id internal e in
    ap (λ o. read_parts (cut_link o))
      (after_prefix-append members_prefix (internal ++ b'/' ∷ decimal n))
    ∙ ap read_parts (cut-append internal (decimal n) all)
    ∙ ap (λ s. both (read_int s) (read_decimal (decimal n))) whole
    ∙ rw (read_int-int_text peer_id, read_decimal-decimal n) refl

-- A link for members.
abbrev for_members : Text → MessageLink
for_members url = record { kind = LinkKind.members_only; url = some url }

read_unnamed :
    (peer_id : ℤ) (n : ℕ) (url : Text) (addressed : Bool) (internal : Option Text)
    → internal_id peer_id ≡ internal
    → (if addressed then members_message n internal else nowhere) ≡ for_members url
    → read_link url ≡ some (peer_id, n)
read_unnamed peer_id n url true (some internal) e found =
    subst (λ t. read_link t ≡ some (peer_id, n)) (some_injective (ap (λ l. l.url) found))
      (read_members peer_id n internal e)
read_unnamed peer_id n url true none e found = ground arith
read_unnamed peer_id n url false internal e found = ground arith

-- Where a link to a message is one for members, the peer id of the chat and the message id are read back
-- from it, so it leads to no other chat and to no other message.
pub read_link-link_for :
    (chat_kind : Text) (peer_id : ℤ) (username : Option Text) (message_id : ℕ) (url : Text)
    (found : link_for chat_kind peer_id username (some message_id)
      ≡ record { kind = LinkKind.members_only; url = some url })
    → read_link url ≡ some (peer_id, message_id)
unfolding link_for
read_link-link_for chat_kind peer_id username zero url found = ground arith
read_link-link_for chat_kind peer_id none (suc n) url found =
    read_unnamed peer_id (suc n) url (is_addressed chat_kind) (internal_id peer_id) refl found
read_link-link_for chat_kind peer_id (some []) (suc n) url found =
    read_unnamed peer_id (suc n) url (is_addressed chat_kind) (internal_id peer_id) refl found
read_link-link_for chat_kind peer_id (some (c ∷ name)) (suc n) url found = ground arith
