-- ===== src/Messenger/Deliver.antt =====
-- net/messenger.go: trySendMessage.
use openbazaar.Prelude.{
  ℕ, ◌+◌, Bool, Option, none, some, List, [], ◌∷◌, ◌||◌, ltb, is_nil, if◌then◌else◌,
}
use openbazaar.Exec.{Result, ok, bind_result, or_external, fail_if, no_inbox_peers}
use openbazaar.Proto.Common.{Bytes, Text}
use openbazaar.Proto.Net.{NetMessage}
use openbazaar.Backoff.{hours}
use openbazaar.Messenger.Envelope.{Keys, prep_encrypted_message}
use openbazaar.Messenger.Servers.{StoreAndForwardServers, PeerCodec, servers}

-- The libraries, at the time `now`.
pub record Mail : Type 0 where
  pub now : ℕ
  pub keys : Keys
  pub codec : PeerCodec
  -- whether NetworkService.SendMessage returns without error
  pub direct : Text → NetMessage → Bool
  -- whether there is a store-and-forward client
  pub has_client : Bool
  -- the row that the database holds for a peer, a zero row where it has none
  pub stored : Text → Option StoreAndForwardServers
  -- getProfileFunc, if there is one: the servers of the peer's profile
  pub get_profile : Option (Text → Option (List Text))

-- snfClient.SendMessage of a ciphertext for a peer to a server.
pub record Push : Type 0 where
  pub recipient : Text
  pub server : Text
  pub ciphertext : Bytes

-- The loop skips the peer IDs that cannot be decoded.
unfoldable pub decodable : PeerCodec → List Text → List Text
decodable codec [] = []
decodable codec (x ∷ xs) = elim (codec.decode x) [
  | none ↦ decodable codec xs
  | some pid ↦ pid ∷ decodable codec xs
]

unfoldable pub profile_servers : Mail → Text → (Text → Option (List Text)) → Result (List Text)
unfolding decodable
profile_servers mail peer get_profile = bind_result (or_external (get_profile peer)) λ names.
    bind_result (fail_if (is_nil names) no_inbox_peers) λ _. ok (decodable mail.codec names)

-- No servers are known, or they were written more than two days ago.
unfoldable pub is_stale : ℕ → List Text → StoreAndForwardServers → Bool
is_stale now known row = is_nil known || ltb (row.last_updated + hours 48) now

unfoldable pub servers_of : Mail → Text → Result (List Text)
unfolding profile_servers is_stale
servers_of mail peer = bind_result (or_external (mail.stored peer)) λ row.
    bind_result (servers mail.codec row) λ known. elim mail.get_profile [
      | none ↦ ok known
      | some f ↦ if is_stale mail.now known row then profile_servers mail peer f else ok known
    ]

unfoldable pub pushes : Text → Bytes → List Text → List Push
pushes peer c [] = []
pushes peer c (s ∷ ss) = record { recipient = peer; server = s; ciphertext = c } ∷ pushes peer c ss

-- The branch for a peer that cannot be reached.
unfoldable pub send_offline : Mail → Text → NetMessage → Result (List Push)
unfolding pushes servers_of
send_offline mail peer message =
    bind_result (servers_of mail peer)
      λ ss. bind_result (prep_encrypted_message mail.keys peer message) λ c. ok (pushes peer c ss)

-- trySendMessage: what it pushes to servers. An error is logged, and nothing is pushed.
unfoldable pub try_send_message : Mail → Text → NetMessage → Result (List Push)
unfolding send_offline
try_send_message mail peer message =
    if mail.direct peer message
    then ok []
    else if mail.has_client
    then send_offline mail peer message
    else ok []
