-- ===== src/Codecs/Tests.antt =====
-- A call that wants Opus besides the default codecs.
use sip_server.Prelude.{◌≡◌, refl, false, some, [], ◌∷◌, text, text_eq}
use sip_server.Codecs.{Known, MediaConfig, allow, MediaDesc, peer_codec_names, has_name}

abbrev known : Known
known = record {
  dtmf = text "telephone-event/8000";
  a_law = text "PCMA";
  u_law = text "PCMU";
  g722 = text "G722";
  amrwb = text "AMR-WB";
}

abbrev config : MediaConfig
config = record {
  encryption = allow;
  only_listed = false;
  listed = record { name = text "opus"; rate = 48000 } ∷ [];
  timeout = some 0;
}

abbrev offer : MediaDesc
offer = record {
  codecs =
      record { type = 0; codec = some (text "PCMU/8000") }
      ∷ record { type = 101; codec = some [] }
      ∷ record { type = 96; codec = some (text "PCMU/8000") }
      ∷ [];
  dtmf_type = 101;
}

advertised : peer_codec_names known offer ≡ text "PCMU/8000" ∷ text "telephone-event/8000" ∷ []
unfolding peer_codec_names has_name text text_eq
advertised = refl
