-- ===== src/Server/Udp.antt =====
-- handleUDPPacket and serveUDP of resolver/internal/server/udp.go, on the packets, the limiter and
-- the semaphore of the handlers.
use decentralized_dns.Base.{
  ℕ, suc, ◌-◌, ◌≤◌, Bytes, List, [], ◌∷◌, ltb, not, Bool, true, Option, none, some, if◌then◌else◌,
  length, codes, arith,
}
use decentralized_dns.Base.Text.{Unicode}
use decentralized_dns.Query.Selector.{Query}
use decentralized_dns.Pki.Resource.{Signing, Envelope, seal_envelope}
use decentralized_dns.Server.Handle.{QueryResult}
use decentralized_dns.Server.Limiter.{Rate, IpLimiter, allow}
use decentralized_dns.Server.Rest.{ResolveResponse, resolve_response}
use decentralized_dns.Udp.Codec
use decentralized_dns.Udp.Codec.{Tlv, encode_udp_response, decode_udp_query}

abbrev pub udp_max_resp : ℕ
udp_max_resp = 65000

abbrev pub udp_max_in_flight : ℕ
udp_max_in_flight = 256

abbrev pub tlv_envelope : ℕ
tlv_envelope = 100

abbrev pub tlv_error : ℕ
tlv_error = 101

-- the statuses, from udpStatusOK to udpStatusTooLarge
pub data Status : Type 0 where
  done bad_query chain internal rate_limited too_large : Status

abbrev pub status_byte : Status → ℕ
status_byte done = 0
status_byte bad_query = 1
status_byte chain = 2
status_byte internal = 3
status_byte rate_limited = 4
status_byte too_large = 5

-- the machine codes of encodeUDPError
pub data UdpCode : Type 0 where
  invalid_query chain_error sign_error marshal_error response_too_large : UdpCode
  over_limit busy : UdpCode

-- encodeUDPError: `error_json` is json.Marshal of an errorBody with a code and a message.
unfoldable pub encode_udp_error : (UdpCode → Bytes → Bytes) → Status → UdpCode → Bytes → Bytes
encode_udp_error error_json status code message =
    encode_udp_response (status_byte status)
      (record { typ = tlv_error; val = error_json code message } ∷ [])

-- what err.Error() gives for the errors that a handler meets
pub record Reasons : Type 0 where
  pub of_query : Codec.Error → Bytes
  pub of_chain : Bytes
  pub of_sealing : Bytes
  pub of_marshalling : Bytes

module _ (g : Signing) (address_hex : Bytes → Bytes) (key : g.PrivateKey) (u : Unicode)
    (marshal : ResolveResponse → Option Bytes) (marshal_envelope : Envelope → Option Bytes)
    (error_json : UdpCode → Bytes → Bytes) (reasons : Reasons) where
  -- the end of handleUDPPacket, on a sealed envelope
  unfoldable pub encode_envelope : Envelope → Bytes
  unfolding encode_udp_error
  encode_envelope env = elim (marshal_envelope env) [
    | none ↦ encode_udp_error error_json internal marshal_error reasons.of_marshalling
    | some text ↦
        if ltb udp_max_resp (length text)
        then encode_udp_error error_json too_large response_too_large
            (codes "response exceeds UDP limit; retry over REST")
        else encode_udp_response (status_byte done) (record { typ = tlv_envelope; val = text } ∷ [])
  ]

  -- handleUDPPacket over the resolution path
  unfoldable pub handle_udp_packet : (Query → Option QueryResult) → Bytes → Bytes
  handle_udp_packet answer packet = elim (decode_udp_query u packet) [
    | Codec.err e ↦ encode_udp_error error_json bad_query invalid_query (reasons.of_query e)
    | Codec.ok q ↦ elim (resolve_response g address_hex q (answer q)) [
      | none ↦ encode_udp_error error_json chain chain_error reasons.of_chain
      | some resp ↦ elim (seal_envelope g key (marshal resp)) [
        | none ↦ encode_udp_error error_json internal sign_error reasons.of_sealing
        | some env ↦ encode_envelope env
      ]
    ]
  ]

module _ (r : Rate) (error_json : UdpCode → Bytes → Bytes) where
  -- what serveUDP keeps: the limiter, which the REST front end shares and which may be nil, and how
  -- many handlers hold the semaphore
  pub record UdpState : Type 0 where
    pub limiter : Option (IpLimiter r)
    pub in_flight : ℕ

  -- what the loop meets: a failed read, a packet from a host at a time, or a handler that is done
  pub data Event : Type 0 where
    read_error : Event
    packet : Bytes → ℕ → Bytes → Event
    finished : Event

  -- what becomes of an event: nothing, an immediate reply, or a handler for a packet
  pub data Effect : Type 0 where
    nothing : Effect
    replied started : Bytes → Effect

  -- s.limiter != nil && !s.limiter.allow(host), and the limiter after it
  unfoldable pub admit : Option (IpLimiter r) → Bytes → ℕ → Option (IpLimiter r) × Bool
  admit none host now = (none, true)
  admit (some l) host now = let (l1, allowed) = allow r l now host in (some l1, allowed)

  unfoldable pub on_packet : UdpState → Bytes → ℕ → Bytes → UdpState × Effect
  on_packet s host now p =
      let (limiter, admitted) = admit s.limiter host now in
      let refused =
        encode_udp_error error_json rate_limited over_limit
          (codes "too many requests from this address") in
      let shed =
        encode_udp_error error_json internal busy (codes "resolver is busy, retry shortly") in
      if not admitted
      then (record { limiter = limiter; in_flight = s.in_flight }, replied refused)
      else if ltb s.in_flight udp_max_in_flight
      then (record { limiter = limiter; in_flight = suc s.in_flight }, started p)
      else (record { limiter = limiter; in_flight = s.in_flight }, replied shed)

  unfoldable pub serve_udp : UdpState → Event → UdpState × Effect
  unfolding on_packet
  serve_udp s read_error = (s, nothing)
  serve_udp s (packet host now p) = on_packet s host now p
  serve_udp s finished = (record s { in_flight = s.in_flight - 1 }, nothing)

  unfoldable pub serve_all : UdpState → List Event → UdpState
  unfolding serve_udp
  serve_all s [] = s
  serve_all s (e ∷ es) = serve_all (serve_udp s e).0 es

  in_flight-on_packet :
      (s : UdpState) (host : Bytes) (now : ℕ) (p : Bytes)
      → s.in_flight ≤ udp_max_in_flight
      → (on_packet s host now p).0.in_flight ≤ udp_max_in_flight
  unfolding on_packet
  in_flight-on_packet s host now p h = ground arith

  in_flight-serve_udp :
      (s : UdpState) (e : Event)
      → s.in_flight ≤ udp_max_in_flight
      → (serve_udp s e).0.in_flight ≤ udp_max_in_flight
  unfolding serve_udp
  in_flight-serve_udp s read_error h = h
  in_flight-serve_udp s (packet host now p) h = in_flight-on_packet s host now p h
  in_flight-serve_udp s finished h = omega arith

  -- Whatever packets arrive and whichever handlers end, at most 256 handlers run at once.
  pub in_flight-serve_all :
      (s : UdpState) (es : List Event)
      → s.in_flight ≤ udp_max_in_flight
      → (serve_all s es).in_flight ≤ udp_max_in_flight
  unfolding serve_all
  in_flight-serve_all s [] h = h
  in_flight-serve_all s (e ∷ es) h =
      in_flight-serve_all (serve_udp s e).0 es (in_flight-serve_udp s e h)
