-- ===== src/Dtls/Tests.antt =====
-- An offer, its answer, and the peer that reads the answer.
use sip_server.Prelude.{
  ◌≡◌, refl, true, false, inr, none, some, [], ◌∷◌, ◌++◌, replicate, Text, text, text_eq,
  text_eq_self, split_on,
}
use sip_server.Dtls.{Media, Session, Host, Config, find_attribute, is_sha256, parse_dtls_offer}
use sip_server.Dtls.Add.{attr, add_dtls_answer}
use sip_server.Dtls.Steps.{IsRole, Ensures}
use sip_server.Dtls.Offer.{Offered, parse_dtls_offer-Offered}
use sip_server.Dtls.Roles.{Reads, mirror, parse_dtls_offer-add_dtls_answer}

abbrev host : Host
host = record {
  fold = text_eq;
  lower = λ t. t;
  fields = split_on b' ';
  parse_addr = λ t. some (t, true);
  scan_port = λ t. some 4000;
  credential = λ n. some (replicate n b'f');
}

abbrev digest : Text
digest = replicate 64 b'A'

abbrev ours : Config
ours = record {
  remote_fingerprint = digest;
  local_setup = text "passive";
  is_client = false;
  certificate = digest;
  ice = none;
}

abbrev answer : Session
answer = record {
  session_attributes = [];
  media =
      record {
        kind = text "audio";
        protos = text "RTP" ∷ text "AVP" ∷ [];
        port = 9000;
        attributes = attr (text "crypto") (text "1") ∷ attr (text "ptime") (text "20") ∷ [];
      }
      ∷ [];
  address = some (text "10.0.0.1");
}

abbrev answered : Media
answered = record {
  kind = text "audio";
  protos = text "UDP" ∷ text "TLS" ∷ text "RTP" ∷ text "SAVPF" ∷ [];
  port = 9000;
  attributes =
      attr (text "ptime") (text "20")
      ∷ attr (text "fingerprint") (text "sha-256 " ++ digest)
      ∷ attr (text "setup") (text "passive")
      ∷ attr (text "rtcp-mux") []
      ∷ [];
}

abbrev offer : Session
offer = record answer { media = answered ∷ [] }

host-Reads : Reads host digest
unfolding split_on text
host-Reads = record {
  fold_self = text_eq_self;
  splits = refl;
  lower_active = refl;
  lower_passive = refl;
}

answered_media : (add_dtls_answer host answer ours).1.media ≡ answered ∷ []
unfolding add_dtls_answer text text_eq
answered_media = refl

parse_dtls_offer-Offered_example :
    Ensures
      (Offered host offer offer.media (some digest))
      (parse_dtls_offer host (some offer) (some digest))
parse_dtls_offer-Offered_example = parse_dtls_offer-Offered host offer (some digest)

parse_dtls_offer-add_dtls_answer_example :
    parse_dtls_offer host (some (add_dtls_answer host answer ours).1) (some digest)
    ≡ inr (some (mirror ours digest))
unfolding add_dtls_answer is_sha256 find_attribute text text_eq
parse_dtls_offer-add_dtls_answer_example =
    parse_dtls_offer-add_dtls_answer host host answer ours answered digest host-Reads refl
      (IsRole.server refl) refl refl refl
