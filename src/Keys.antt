-- ===== src/Keys.antt =====
-- domain/idempotency.py: the key that makes a delivery happen once.
pub mod Decimal
pub mod Joining
pub mod RoundTrip
unfoldable pub use Decimal.{decimal, int_text}
unfoldable pub use Joining.{join}
use insightxadsflow.Prelude.{
  ℕ, ◌+◌, ◌*◌, ◌/◌, ◌%◌, ◌^◌, List, [], ◌∷◌, ◌++◌, Option, some, none, if◌then◌else◌, leb, ltb,
  take,
}
use insightxadsflow.Models.{Text, ChatRef, peer_value}
use insightxadsflow.Text.{codes}

-- What `uuid` and `hashlib` compute: the text of an id, and the 32 bytes of a digest.
pub record Library : Type 0 where
  pub uuid_text : ℕ → Text
  pub sha256 : List ℕ → List ℕ

abbrev hex_digit : ℕ → ℕ
hex_digit n = if ltb n 10 then b'0' + n else 87 + n

-- `hexdigest()`
unfoldable pub hex : List ℕ → Text
hex [] = []
hex (byte ∷ rest) = hex_digit (byte / 16) ∷ hex_digit (byte % 16) ∷ hex rest

-- `min(message_ids)`
unfoldable pub least : ℕ → List ℕ → ℕ
least n [] = n
least n (m ∷ rest) = if ltb m n then least m rest else least n rest

-- The parts of the key's material, in their order.
unfoldable pub parts : Library → ℕ → ChatRef → ℕ → ChatRef → List Text
parts lib rule_id source anchor destination =
    lib.uuid_text rule_id
    ∷ codes (peer_value source.peer_type)
    ∷ int_text source.peer_id
    ∷ decimal anchor
    ∷ codes (peer_value destination.peer_type)
    ∷ int_text destination.peer_id
    ∷ []

unfoldable pub key_text : Library → ℕ → ChatRef → ℕ → List ℕ → ChatRef → Text
unfolding hex parts
key_text lib rule_id source first rest destination =
    hex (lib.sha256 (join (parts lib rule_id source (least first rest) destination)))

-- `none` is the `ValueError`. What is hashed is ASCII, so that `encode` changes nothing.
unfoldable pub build_idempotency_key : Library → ℕ → ChatRef → List ℕ → ChatRef → Option Text
unfolding key_text
build_idempotency_key lib rule_id source [] destination = none
build_idempotency_key lib rule_id source (first ∷ rest) destination =
    some (key_text lib rule_id source first rest destination)

-- `int.from_bytes(bytes, "big")`
unfoldable pub from_bytes : ℕ → List ℕ → ℕ
from_bytes n [] = n
from_bytes n (byte ∷ rest) = from_bytes (n * 256 + byte) rest

unfoldable pub build_mtproto_random_id : Library → Text → ℕ
unfolding from_bytes
build_mtproto_random_id lib idempotency_key =
    from_bytes 0 (take 8 (lib.sha256 (codes "random_id|" ++ idempotency_key))) % 2 ^ 63
