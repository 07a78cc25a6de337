-- ===== src/Keys/RoundTrip.antt =====
-- domain/idempotency.py: what the key is made of can be read back from it, and the order of an album's
-- messages does not matter.
use insightxadsflow.Prelude.{
  ℕ, suc, ◌≤◌, ◌≡◌, refl, sym, ◌∙◌, true, List, [], ◌∷◌, Option, some, none, if◌then◌else◌, All,
  arith,
}
use insightxadsflow.Prelude.Int.{ℤ, pos, negsuc}
use insightxadsflow.Models.{Text, PeerType, ChatRef, peer_value}
use insightxadsflow.Text.{codes, same_text}
use insightxadsflow.Leases.{mem_id}
use insightxadsflow.Keys.Decimal.{
  decimal, int_text, read_decimal, read_int, read_decimal-decimal, read_int-int_text, IsDigit,
  All-decimal,
}
use insightxadsflow.Keys.Joining.{join, split, split-join, IsWhole}
use insightxadsflow.Keys.{Library, parts, least, build_idempotency_key, key_text}

pub record KeyParts : Type 0 where
  pub rule : Text
  pub source_type : PeerType
  pub source_id : ℤ
  pub anchor : ℕ
  pub destination_type : PeerType
  pub destination_id : ℤ

infixl 5 ◌>>=◌
abbrev ◌>>=◌ {ℓ κ} : {A : Type ℓ} {B : Type κ} → Option A → (A → Option B) → Option B
some a >>= f = f a
none >>= f = none

unfoldable pub read_peer : Text → Option PeerType
unfolding same_text
read_peer t =
    if same_text t (codes "user")
    then some PeerType.user
    else if same_text t (codes "chat")
    then some PeerType.chat
    else if same_text t (codes "channel")
    then some PeerType.channel
    else none

unfoldable pub read_parts : List Text → Option KeyParts
unfolding read_peer
read_parts (rule ∷ source ∷ source_id ∷ anchor ∷ destination ∷ destination_id ∷ []) = do
  source_type ← read_peer source
  source_id ← read_int source_id
  anchor ← read_decimal anchor
  destination_type ← read_peer destination
  destination_id ← read_int destination_id
  some (record {
    rule = rule;
    source_type = source_type;
    source_id = source_id;
    anchor = anchor;
    destination_type = destination_type;
    destination_id = destination_id;
  })
read_parts _ = none

unfoldable pub read_key : Text → Option KeyParts
unfolding read_parts
read_key t = read_parts (split t)

read_peer-peer_value : (p : PeerType) → read_peer (codes (peer_value p)) ≡ some p
unfolding read_peer same_text
read_peer-peer_value PeerType.user = refl
read_peer-peer_value PeerType.chat = refl
read_peer-peer_value PeerType.channel = refl

peer_value-IsWhole : (p : PeerType) → IsWhole (codes (peer_value p))
peer_value-IsWhole PeerType.user = (refl, (refl, (refl, (refl, tt))))
peer_value-IsWhole PeerType.chat = (refl, (refl, (refl, (refl, tt))))
peer_value-IsWhole PeerType.channel = (refl, (refl, (refl, (refl, (refl, (refl, (refl, tt)))))))

digits-IsWhole : (t : Text) → All IsDigit t → IsWhole t
digits-IsWhole [] h = tt
digits-IsWhole (c ∷ t) h = (ground (arith, h.0), digits-IsWhole t h.1)

pub decimal-IsWhole : (n : ℕ) → IsWhole (decimal n)
decimal-IsWhole n = digits-IsWhole (decimal n) (All-decimal n)

int_text-IsWhole : (a : ℤ) → IsWhole (int_text a)
unfolding int_text
int_text-IsWhole (pos n) = decimal-IsWhole n
int_text-IsWhole (negsuc n) = (refl, decimal-IsWhole (suc n))

parts-IsWhole :
    (lib : Library) (whole : (id : ℕ) → IsWhole (lib.uuid_text id)) (rule_id : ℕ) (source : ChatRef)
    (anchor : ℕ) (destination : ChatRef)
    → All IsWhole (parts lib rule_id source anchor destination)
unfolding parts
parts-IsWhole lib whole rule_id source anchor destination = (
  whole rule_id,
  (
    peer_value-IsWhole source.peer_type,
    (
      int_text-IsWhole source.peer_id,
      (
        decimal-IsWhole anchor,
        (peer_value-IsWhole destination.peer_type, (int_text-IsWhole destination.peer_id, tt)),
      ),
    ),
  ),
)

-- Where the text of an id has no separator, the key's material names the rule, the peer of the source,
-- the anchor message and the peer of the destination: all six are read back from the joined text.
pub read_key-join :
    (lib : Library) (whole : (id : ℕ) → IsWhole (lib.uuid_text id)) (rule_id : ℕ) (source : ChatRef)
    (anchor : ℕ) (destination : ChatRef)
    → read_key (join (parts lib rule_id source anchor destination))
      ≡ some (record {
        rule = lib.uuid_text rule_id;
        source_type = source.peer_type;
        source_id = source.peer_id;
        anchor = anchor;
        destination_type = destination.peer_type;
        destination_id = destination.peer_id;
      })
unfolding read_key parts
read_key-join lib whole rule_id source anchor destination =
    rw
      (
        split-join _ _ (parts-IsWhole lib whole rule_id source anchor destination),
        read_parts,
        read_peer-peer_value source.peer_type,
        read_int-int_text source.peer_id,
        read_decimal-decimal anchor,
        read_peer-peer_value destination.peer_type,
        read_int-int_text destination.peer_id,
      )
      refl

least-le : (n : ℕ) (rest : List ℕ) (x : ℕ) → mem_id x (n ∷ rest) ≡ true → least n rest ≤ x
unfolding least
least-le n [] x h = ground arith
least-le n (m ∷ rest) x h =
    ground (arith, least-le n rest x, least-le m rest x, least-le n rest n, least-le m rest m)

least-mem : (n : ℕ) (rest : List ℕ) → mem_id (least n rest) (n ∷ rest) ≡ true
unfolding least
least-mem n [] = ground arith
least-mem n (m ∷ rest) = ground (arith, least-mem n rest, least-mem m rest)

least_same :
    (first : ℕ) (rest : List ℕ) (first' : ℕ) (rest' : List ℕ)
    → ((i : ℕ) → mem_id i (first ∷ rest) ≡ mem_id i (first' ∷ rest'))
    → least first rest ≡ least first' rest'
least_same first rest first' rest' same = omega (
  arith,
  least-le first rest (least first' rest') (same (least first' rest') ∙ least-mem first' rest'),
  least-le first' rest' (least first rest) (sym (same (least first rest)) ∙ least-mem first rest),
)

pub key_text_reordered :
    (lib : Library) (rule_id : ℕ) (source destination : ChatRef) (first : ℕ) (rest : List ℕ)
    (first' : ℕ) (rest' : List ℕ)
    → ((i : ℕ) → mem_id i (first ∷ rest) ≡ mem_id i (first' ∷ rest'))
    → key_text lib rule_id source first rest destination
      ≡ key_text lib rule_id source first' rest' destination
unfolding key_text
key_text_reordered lib rule_id source destination first rest first' rest' same =
    rw (least_same first rest first' rest' same) refl

-- Two non-empty lists with the same message ids, in whatever order and however often, make the same
-- key.
pub build_idempotency_key_reordered :
    (lib : Library) (rule_id : ℕ) (source destination : ChatRef) (first : ℕ) (rest : List ℕ)
    (first' : ℕ) (rest' : List ℕ)
    (same : (i : ℕ) → mem_id i (first ∷ rest) ≡ mem_id i (first' ∷ rest'))
    → build_idempotency_key lib rule_id source (first ∷ rest) destination
      ≡ build_idempotency_key lib rule_id source (first' ∷ rest') destination
unfolding build_idempotency_key key_text
build_idempotency_key_reordered lib rule_id source destination first rest first' rest' same =
    rw (least_same first rest first' rest' same) refl
