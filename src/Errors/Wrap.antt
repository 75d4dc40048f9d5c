-- ===== src/Errors/Wrap.antt =====
-- The wrappers that only add text or an RPC code: fmt.Errorf with %w, and psrpc.NewError.
use sip_server.Prelude.{Text, ◌≡◌, refl, List, [], ◌∷◌}
use sip_server.Errors.{
  Err, ErrorCode, Sentinel, wrapped, rpc, is, find_status, find_classifier, has_addr_error,
  has_dns_error, has_op_error,
}

pub data Wrapper : Type 0 where
  say : Text → Wrapper
  code : ErrorCode → Wrapper

abbrev pub wrap : List Wrapper → Err → Err
wrap [] e = e
wrap (say m ∷ ws) e = wrapped m (wrap ws e)
wrap (code c ∷ ws) e = rpc c (wrap ws e)

pub is-wrap : (s : Sentinel) (ws : List Wrapper) (e : Err) → is s (wrap ws e) ≡ is s e
unfolding is
is-wrap s [] e = refl
is-wrap s (say m ∷ ws) e = is-wrap s ws e
is-wrap s (code c ∷ ws) e = is-wrap s ws e

pub find_status-wrap : (ws : List Wrapper) (e : Err) → find_status (wrap ws e) ≡ find_status e
unfolding find_status
find_status-wrap [] e = refl
find_status-wrap (say m ∷ ws) e = find_status-wrap ws e
find_status-wrap (code c ∷ ws) e = find_status-wrap ws e

pub find_classifier-wrap :
    (ws : List Wrapper) (e : Err) → find_classifier (wrap ws e) ≡ find_classifier e
unfolding find_classifier
find_classifier-wrap [] e = refl
find_classifier-wrap (say m ∷ ws) e = find_classifier-wrap ws e
find_classifier-wrap (code c ∷ ws) e = find_classifier-wrap ws e

pub has_addr_error-wrap :
    (ws : List Wrapper) (e : Err) → has_addr_error (wrap ws e) ≡ has_addr_error e
unfolding has_addr_error
has_addr_error-wrap [] e = refl
has_addr_error-wrap (say m ∷ ws) e = has_addr_error-wrap ws e
has_addr_error-wrap (code c ∷ ws) e = has_addr_error-wrap ws e

pub has_dns_error-wrap : (ws : List Wrapper) (e : Err) → has_dns_error (wrap ws e) ≡ has_dns_error e
unfolding has_dns_error
has_dns_error-wrap [] e = refl
has_dns_error-wrap (say m ∷ ws) e = has_dns_error-wrap ws e
has_dns_error-wrap (code c ∷ ws) e = has_dns_error-wrap ws e

pub has_op_error-wrap : (ws : List Wrapper) (e : Err) → has_op_error (wrap ws e) ≡ has_op_error e
unfolding has_op_error
has_op_error-wrap [] e = refl
has_op_error-wrap (say m ∷ ws) e = has_op_error-wrap ws e
has_op_error-wrap (code c ∷ ws) e = has_op_error-wrap ws e
