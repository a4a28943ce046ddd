-- ===== src/Server/Replies.antt =====
-- What handleUDPPacket of resolver/internal/server/udp.go replies, as a client decodes it.
use decentralized_dns.Base.{ℕ, Bytes, List, [], ◌∷◌, Option, none, some, ◌≡◌, ◌≢◌}
use decentralized_dns.Base.Text.{Unicode}
use decentralized_dns.Query.Selector.{Query}
use decentralized_dns.Pki.Resource.{Signing, Envelope, verify_envelope}
use decentralized_dns.Server.Handle.{QueryResult}
use decentralized_dns.Server.Limiter.{Rate}
use decentralized_dns.Server.Rest.{ResolveResponse, resolve_response}
use decentralized_dns.Server.Udp.{
  tlv_envelope, Status, status_byte, UdpCode, handle_udp_packet, Reasons, Effect, nothing, replied,
  started,
}
use decentralized_dns.Udp.Codec
use decentralized_dns.Udp.Codec.{
  Tlv, encode_udp_response, decode_udp_query, decode_udp_response, ok,
}

module _ (g : Signing) (address_hex : Bytes → Bytes) (key : g.PrivateKey) (u : Unicode)
    (marshal : ResolveResponse → Option Bytes) (marshal_envelope : Envelope → Option Bytes)
    (error_json : UdpCode → Bytes → Bytes) (reasons : Reasons) (answer : Query → Option QueryResult)
    (packet : Bytes) where
  -- A reply with status 0 carries, once and in full, an envelope that verifies and that holds the
  -- response to the packet's query; any other reply has another status.
  pub data IsReply : Bytes → Type 0 where
    fails :
        (reply : Bytes) (s : Status) (values : ℕ → List Bytes)
        → decode_udp_response reply ≡ ok (status_byte s, values)
        → status_byte s ≢ 0
        → IsReply reply
    answers :
        (reply : Bytes) (values : ℕ → List Bytes) (q : Query) (resp : ResolveResponse)
        (env : Envelope) (text : Bytes)
        → decode_udp_response reply ≡ ok (0, values)
        → values tlv_envelope ≡ text ∷ []
        → decode_udp_query u packet ≡ ok q
        → resolve_response g address_hex q (answer q) ≡ some resp
        → marshal resp ≡ some env.contents
        → verify_envelope g env ≡ none
        → marshal_envelope env ≡ some text
        → IsReply reply

  module _ (r : Rate) where
    -- what is sent for an effect: the reply, or that of the handler
    abbrev pub reply_to : Effect r error_json → Option Bytes
    reply_to nothing = none
    reply_to (replied reply) = some reply
    reply_to (started p) =
        some (
          handle_udp_packet g address_hex key u marshal marshal_envelope error_json reasons answer
            p)
