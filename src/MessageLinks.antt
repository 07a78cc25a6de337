-- ===== src/MessageLinks.antt =====
-- domain/message_links.py: links to a chat and to a message in it.
pub mod Reading
use insightxadsflow.Prelude.{
  ℕ, zero, suc, Bool, true, false, not, ◌&&◌, List, [], ◌∷◌, ◌++◌, Option, none, some, ◌==◌,
  if◌then◌else◌, leb,
}
use insightxadsflow.Prelude.Int.{ℤ}
use insightxadsflow.Models.{Text}
use insightxadsflow.Text.{codes, is_empty, same_text}
use insightxadsflow.Keys.Decimal.{decimal, int_text}

pub data LinkKind : Type 0 where
  public members_only no_link : LinkKind

pub record MessageLink : Type 0 where
  pub kind : LinkKind
  pub url : Option Text

-- `durable`
unfoldable pub is_durable : MessageLink → Bool
is_durable link = elim link.kind [ public ↦ true | members_only ↦ false | no_link ↦ false ]

-- What follows the prefix, where the text has it.
unfoldable pub after_prefix : Text → Text → Option Text
after_prefix [] t = some t
after_prefix (a ∷ p) [] = none
after_prefix (a ∷ p) (b ∷ t) = let rest = after_prefix p t in if a == b then rest else none

abbrev pub get_or_text : Text → Option Text → Text
get_or_text t none = t
get_or_text t (some rest) = rest

-- `str.removeprefix`
unfoldable pub removeprefix : Text → Text → Text
unfolding after_prefix
removeprefix p t = get_or_text t (after_prefix p t)

abbrev pub are_digits : Text → Bool
are_digits [] = true
are_digits (c ∷ t) = if leb b'0' c && leb c b'9' then are_digits t else false

-- `str.isdigit` on the ASCII text of an integer
unfoldable pub isdigit : Text → Bool
isdigit t = if is_empty t then false else are_digits t

-- `_CHANNEL_PREFIX`
abbrev pub channel_prefix : Text
channel_prefix = codes "-100"

-- `internal`, where both conditions on it hold
unfoldable pub internal_id : ℤ → Option Text
unfolding removeprefix isdigit same_text int_text
internal_id peer_id =
    let internal = removeprefix channel_prefix (int_text peer_id) in
    if not (same_text internal (int_text peer_id)) && isdigit internal then some internal else none

-- `chat_kind in ("supergroup", "channel")`
unfoldable pub is_addressed : Text → Bool
unfolding same_text
is_addressed chat_kind =
    if same_text chat_kind (codes "supergroup") then true else same_text chat_kind (codes "channel")

abbrev pub nowhere : MessageLink
nowhere = record { kind = LinkKind.no_link; url = none }

abbrev pub public_prefix : Text
public_prefix = codes "https://t.me/"

abbrev pub members_prefix : Text
members_prefix = codes "https://t.me/c/"

abbrev pub members_chat : Option Text → MessageLink
members_chat none = nowhere
members_chat (some internal) = record {
  kind = LinkKind.members_only;
  url = some (members_prefix ++ internal);
}

abbrev pub members_message : ℕ → Option Text → MessageLink
members_message message_id none = nowhere
members_message message_id (some internal) = record {
  kind = LinkKind.members_only;
  url = some (members_prefix ++ internal ++ b'/' ∷ decimal message_id);
}

-- `if username`
abbrev pub given_name : Option Text → Option Text
given_name none = none
given_name (some []) = none
given_name (some (c ∷ t)) = some (c ∷ t)

unfoldable pub chat_link : Text → ℤ → Option Text → MessageLink
unfolding internal_id is_addressed
chat_link chat_kind peer_id username = elim (given_name username) [
  | some name ↦ record { kind = LinkKind.public; url = some (public_prefix ++ name) }
  | none ↦ if is_addressed chat_kind then members_chat (internal_id peer_id) else nowhere
]

abbrev pub named_message : Text → ℤ → Option Text → ℕ → MessageLink
named_message chat_kind peer_id username message_id = elim (given_name username) [
  | some name ↦ record {
    kind = LinkKind.public;
    url = some (public_prefix ++ name ++ b'/' ∷ decimal message_id);
  }
  | none ↦
      if is_addressed chat_kind then members_message message_id (internal_id peer_id) else nowhere
]

-- `if not message_id` is true of 0 also.
unfoldable pub link_for : Text → ℤ → Option Text → Option ℕ → MessageLink
unfolding internal_id is_addressed decimal
link_for chat_kind peer_id username none = nowhere
link_for chat_kind peer_id username (some zero) = nowhere
link_for chat_kind peer_id username (some (suc n)) =
    named_message chat_kind peer_id username (suc n)
