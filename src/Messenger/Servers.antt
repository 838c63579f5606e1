-- ===== src/Messenger/Servers.antt =====
-- models/snf_servers.go: the servers on which a peer receives messages while it is offline.
use openbazaar.Prelude.{ℕ, Option, none, some, List, [], ◌∷◌, ◌≡◌, refl, subst}
use openbazaar.Exec.{Result, ok, bind_result, or_external}
use openbazaar.Exec.Invert.{external-ok}
use openbazaar.Proto.Common.{Bytes, Text}

pub record StoreAndForwardServers : Type 0 where
  pub peer_id : Text
  pub snf_servers : Option Bytes
  pub last_updated : ℕ

-- json.Marshal and json.Unmarshal of a list of strings, and peer.Decode.
pub record PeerCodec : Type 0 where
  pub to_json : List Text → Option Bytes
  pub from_json : Bytes → Option (List Text)
  pub decode : Text → Option Text

unfoldable pub put_servers :
    PeerCodec → List Text → StoreAndForwardServers → Result StoreAndForwardServers
put_servers codec peer_ids p =
    bind_result (or_external (codec.to_json peer_ids))
      λ out. ok (record p { snf_servers = some out })

-- The loop returns at the first peer ID that cannot be decoded.
unfoldable pub decode_peers : PeerCodec → List Text → Result (List Text)
decode_peers codec [] = ok []
decode_peers codec (x ∷ xs) =
    bind_result (or_external (codec.decode x))
      λ pid. bind_result (decode_peers codec xs) λ pids. ok (pid ∷ pids)

unfoldable pub servers : PeerCodec → StoreAndForwardServers → Result (List Text)
unfolding decode_peers
servers codec p = elim p.snf_servers [
  | none ↦ ok []
  | some b ↦
      bind_result (or_external (codec.from_json b)) λ inbox_peers. decode_peers codec inbox_peers
]

-- The strings that name the peers, in their order.
abbrev pub Decodes : PeerCodec → List Text → List Text → Type 0
Decodes codec [] [] = Unit
Decodes codec [] (y ∷ ys) = ⊥
Decodes codec (x ∷ xs) [] = ⊥
Decodes codec (x ∷ xs) (y ∷ ys) = (codec.decode x ≡ some y) × Decodes codec xs ys

decode_peers-Decodes :
    (codec : PeerCodec) (xs ys : List Text) → Decodes codec xs ys → decode_peers codec xs ≡ ok ys
unfolding decode_peers
decode_peers-Decodes codec [] [] h = refl
decode_peers-Decodes codec [] (y ∷ ys) h = elim h [ ]
decode_peers-Decodes codec (x ∷ xs) [] h = elim h [ ]
decode_peers-Decodes codec (x ∷ xs) (y ∷ ys) h =
    rw h.0 (rw (decode_peers-Decodes codec xs ys h.1) refl)

-- Where JSON reads back what it wrote: if PutServers returns without error, Servers returns the peers
-- that the strings name, in their order.
pub servers-put_servers :
    (codec : PeerCodec) (peer_ids pids : List Text) (p q : StoreAndForwardServers)
    → ((l : List Text) (b : Bytes) → codec.to_json l ≡ some b → codec.from_json b ≡ some l)
    → Decodes codec peer_ids pids
    → put_servers codec peer_ids p ≡ ok q
    → servers codec q ≡ ok pids
unfolding put_servers servers
servers-put_servers codec peer_ids pids p q reads names done =
    let (b, hb, k) = external-ok (codec.to_json peer_ids) _ done in
    let h : servers codec (record p { snf_servers = some b }) ≡ ok pids =
      rw (reads peer_ids b hb) (decode_peers-Decodes codec peer_ids pids names) in
    let e : record p { snf_servers = some b } ≡ q = cc in subst (λ r. servers codec r ≡ ok pids) e h
