-- ===== src/Lookup/Judged.antt =====
-- What a run of resolver/cmd/ddns-lookup/main.go that judges an answer has checked.
use decentralized_dns.Base.{ℕ, Bytes, Bool, true, Option, some, ◌≡◌}
use decentralized_dns.Base.Text.{Unicode}
use decentralized_dns.Cli.Addresses.{Tools}
use decentralized_dns.Config.Env.{Environment}
use decentralized_dns.Query.Grammar.{name_ok, type_ok}
use decentralized_dns.Query.Selector
use decentralized_dns.Query.Selector.{Query, Pair, one_of}
use decentralized_dns.Pki.Owner.{Secp, SliceSort}
use decentralized_dns.Pki.Resource.{Signing, Envelope}
use decentralized_dns.Zk.Pack.{Gnark}
use decentralized_dns.Lookup.Client.{Mode, lookup}
use decentralized_dns.Lookup.Compare.{Decoding}
use decentralized_dns.Lookup.Honest.{sent}
use decentralized_dns.Server.Rest.{ResolveResponse}
use decentralized_dns.Lookup.Command.{Outside, Run, stopped, judged}

module _ (c : Secp) (o : SliceSort) (g : Gnark) (sg : Signing) (d : Decoding) (t : Tools c)
    (env : Environment) (u : Unicode) (equal_fold : Bytes → Bytes → Bool)
    (unmarshal : Bytes → Option ResolveResponse) (out : Outside) where
  -- what a judged run says: the query is normalised, an endpoint gave the answer to it, and the verdict
  -- is that of the checks
  data IsAsked : Run → Type 0 where
    stops : (code : ℕ) → IsAsked (stopped code)
    asks :
        (endpoint : Bytes) (q : Query) (mode : Mode) (answer : Option Envelope)
        → name_ok q.name ≡ true
        → type_ok q.rtype ≡ true
        → out.request endpoint (sent q) ≡ some answer
        → IsAsked (judged q mode answer (lookup c o g sg d equal_fold unmarshal mode q answer))

  abbrev Judged : Run → Type 0
  Judged (stopped code) = Unit
  Judged (judged q mode answer v) =
      (name_ok q.name ≡ true)
      × (type_ok q.rtype ≡ true)
      × (endpoint : Bytes) × (out.request endpoint (sent q) ≡ some answer)
      × (lookup c o g sg d equal_fold unmarshal mode q answer ≡ v)
