-- ===== src/Outbound/Waiting.antt =====
-- What a client transaction comes to (`sipResponse` of pkg/sip/outbound.go).
use sip_server.Prelude.{
  ℕ, ◌+◌, ◌/◌, ◌≡◌, ◌≢◌, false, none, some, List, [], ◌∷◌, ◌++◌, map, length, arith, All,
}
use sip_server.Errors.{rpc, canceled, transaction_timeout}
use sip_server.Outbound.{Response, TxEvent, tx_done, got, sip_response}

-- A 1xx response.
abbrev pub IsProvisional : Response → Type 0
IsProvisional r = r.status / 100 ≡ 1

sip_response-skip :
    (n : ℕ) (r : Response) (es : List TxEvent)
    → IsProvisional r
    → sip_response n (got r ∷ es) ≡ sip_response (n + 1) es
unfolding sip_response
sip_response-skip n r es p = ground (arith, p)

sip_response-provisional :
    (n : ℕ) (ps : List Response) (es : List TxEvent)
    → All IsProvisional ps
    → sip_response n (map got ps ++ es) ≡ sip_response (n + length ps) es
sip_response-provisional n [] es a = ground arith
sip_response-provisional n (p ∷ ps) es (a, b) =
    ground
      (arith, sip_response-skip n p (map got ps ++ es) a, sip_response-provisional (n + 1) ps es b)

-- Provisional responses are passed over, however many: the first other response is returned, and a
-- transaction that ends instead is reported with the number of the provisional ones.
pub sip_response_lem :
    (ps : List Response) (r : Response) (es : List TxEvent)
    → All IsProvisional ps
    → r.status / 100 ≢ 1
    → (sip_response 0 (map got ps ++ (got r ∷ es)) ≡ (none, some r))
      × (sip_response 0 (map got ps ++ (tx_done ∷ es))
          ≡ (some (rpc canceled (transaction_timeout (length ps)), false), none))
unfolding sip_response
sip_response_lem ps r es a f = (
  ground (arith, sip_response-provisional 0 ps (got r ∷ es) a),
  ground (arith, sip_response-provisional 0 ps (tx_done ∷ es) a),
)
