-- ===== src/Server/Invite/Replay.antt =====
-- A rejected INVITE that is sent again is answered from the replay cache (pkg/sip/inbound.go).
use sip_server.Prelude.{
  ℕ, ◌≡◌, refl, sym, ap, ◌∙◌, subst, ◌⊎◌, inl, inr, Bool, true, false, Option, none, some, List, [],
  ◌∷◌, arith, Text, text, is_empty, leb, if◌then◌else◌, Option-cases, text_eq_self,
}
use sip_server.Errors.{Err}
use sip_server.Inbound.Leg.{Leg, Cache, respond, processing, drop, respond_and_drop, stop_ringing}
use sip_server.Inbound.Auth.{Challenge, Credentials, InboundAuth}
use sip_server.Server.{
  AuthResult, auth_not_found, auth_drop, auth_password, auth_accept, auth_quota_exceeded,
  auth_no_trunk_found, Request, Server, Env, Served, lookup, lookup_pair, new_inbound, with_call_id,
  with_tags, invalid, present, local_tag,
}
use sip_server.Server.Invite.{
  reject, authorize, is_later, is_later_out, dispatch, replay, find_rejected, validated,
  process_invite, leg_codes, answers,
}

-- The rejections by the answer of GetAuthCredentials.
abbrev pub turned_away : Err ⊎ (AuthResult × InboundAuth) → Option (ℕ × Text)
turned_away (inl e) = some (503, text "Try again later")
turned_away (inr (auth_not_found, a)) = some (404, text "Does not match any SIP Trunks")
turned_away (inr (auth_quota_exceeded, a)) = some (503, text "Service temporarily unavailable")
turned_away (inr (auth_no_trunk_found, a)) = some (404, text "No trunk found")
turned_away (inr (_, a)) = none

-- The server with one more rejection.
abbrev remember : List ((Text × Text) × (ℕ × Text)) → Leg → ℕ × Text → Server → Server
remember es l x s = record s { rejected = some (((l.sip_call_id, l.tag), x) ∷ es) }

cached-remember :
    (status : ℕ) (reason : Text) (s : Server) (l : Leg) (es : List ((Text × Text) × (ℕ × Text)))
    → s.rejected ≡ some es
    → is_empty l.sip_call_id ≡ false
    → leb 300 status ≡ true
    → record s { rejected = (respond_and_drop status reason l s.rejected).1 }
      ≡ remember es l (status, reason) s
unfolding respond_and_drop
cached-remember status reason s l es h n f = ground (arith, h, n, f)

-- The leg of a request does not depend on the server.
with_tags_leg :
    (s s' : Server) (v v' : Env) (q : Request) (c : Text) (from : Option Text)
    (to : Option (Option Text)) (id : Text) (l : Leg)
    → with_tags s v q c from to ≡ inr (id, l)
    → (id' : Text) × (with_tags s' v' q c from to ≡ inr (id', l))
unfolding with_tags invalid
with_tags_leg s s' v v' q c none to id l e = ground (arith, e)
with_tags_leg s s' v v' q c (some f) none id l e = ground (arith, e)
with_tags_leg s s' v v' q c (some f) (some t) id l e =
    (local_tag (present t) (lookup_pair (c, f) s'.provisional) v'.new_tag, ground (arith, e))

with_call_id_leg :
    (s s' : Server) (v v' : Env) (q : Request) (o : Option Text) (id : Text) (l : Leg)
    → with_call_id s v q o ≡ inr (id, l)
    → (id' : Text) × (with_call_id s' v' q o ≡ inr (id', l))
unfolding with_call_id invalid
with_call_id_leg s s' v v' q none id l e = ground (arith, e)
with_call_id_leg s s' v v' q (some c) id l e = elim (Option-cases q.from) [
  | inl n ↦ ground (arith, n, e)
  | inr (tag, f) ↦
      let (id', k) = with_tags_leg s s' v v' q c (present tag) q.to id l (ground (arith, f, e)) in
      (id', ground (arith, f, k))
]

new_inbound_leg :
    (s s' : Server) (v v' : Env) (q : Request) (id : Text) (l : Leg)
    → new_inbound s v q ≡ inr (id, l)
    → (id' : Text) × (new_inbound s' v' q ≡ inr (id', l))
unfolding new_inbound
new_inbound_leg s s' v v' q id l e = with_call_id_leg s s' v v' q (present q.call_id) id l e

-- The leg of a valid request.
with_tags_new :
    (s : Server) (v : Env) (q : Request) (c : Text) (from : Option Text) (to : Option (Option Text))
    (id : Text) (l : Leg)
    → is_empty c ≡ false
    → with_tags s v q c from to ≡ inr (id, l)
    → (is_empty l.sip_call_id ≡ false) × (l.has_tx ≡ true) × (l.sent ≡ [])
unfolding with_tags invalid
with_tags_new s v q c none to id l n e = ground (arith, e)
with_tags_new s v q c (some f) none id l n e = ground (arith, e)
with_tags_new s v q c (some f) (some t) id l n e = ground (arith, e, n)

with_call_id_new :
    (s : Server) (v : Env) (q : Request) (o : Option Text) (id : Text) (l : Leg)
    → with_call_id s v q (present o) ≡ inr (id, l)
    → (is_empty l.sip_call_id ≡ false) × (l.has_tx ≡ true) × (l.sent ≡ [])
unfolding with_call_id invalid
with_call_id_new s v q none id l e = ground (arith, e)
with_call_id_new s v q (some []) id l e = ground (arith, e)
with_call_id_new s v q (some (c ∷ t)) id l e = elim (Option-cases q.from) [
  | inl n ↦ ground (arith, n, e)
  | inr (tag, f) ↦ with_tags_new s v q (c ∷ t) (present tag) q.to id l refl (ground (arith, f, e))
]

new_inbound_new :
    (s : Server) (v : Env) (q : Request) (id : Text) (l : Leg)
    → new_inbound s v q ≡ inr (id, l)
    → (is_empty l.sip_call_id ≡ false) × (l.has_tx ≡ true) × (l.sent ≡ [])
unfolding new_inbound
new_inbound_new s v q id l e = with_call_id_new s v q q.call_id id l e

processing_keeps :
    (l : Leg) → ((processing l).sip_call_id ≡ l.sip_call_id) × ((processing l).tag ≡ l.tag)
unfolding processing respond
processing_keeps l = ground arith

-- What is replayed is the code alone.
replayed :
    (l : Leg) (status : ℕ) (reason : Text) (c : Cache)
    → l.has_tx ≡ true
    → l.sent ≡ []
    → leg_codes (respond_and_drop status reason l c).0.sent ≡ status ∷ []
unfolding respond_and_drop drop respond stop_ringing
replayed l status reason none t n = ground (arith, t, n)
replayed l status reason (some es) t n = ground (arith, t, n)

some_eq : (x y : ℕ × Text) → some x ≡ some y → x ≡ y
some_eq x y e = ground (arith, e)

module _ (parse_credentials : Text → Option Credentials)
    (digest : Challenge → Text → Text → Text → Text → Option Text) where
  authorize-remember :
      (hide : Bool) (q : Request) (id : Text) (l : Leg) (s : Server)
      (r : Err ⊎ (AuthResult × InboundAuth)) (es : List ((Text × Text) × (ℕ × Text))) (x : ℕ × Text)
      → s.rejected ≡ some es
      → is_empty l.sip_call_id ≡ false
      → turned_away r ≡ some x
      → (authorize parse_credentials digest hide q id l s r).0 ≡ remember es l x s
  unfolding authorize reject
  authorize-remember hide q id l s (inl e) es x h n t =
      cached-remember _ _ s l es h n refl ∙ ap (λ y. remember es l y s) (some_eq _ x t)
  authorize-remember hide q id l s (inr (auth_not_found, a)) es x h n t =
      cached-remember _ _ s l es h n refl ∙ ap (λ y. remember es l y s) (some_eq _ x t)
  authorize-remember hide q id l s (inr (auth_drop, a)) es x h n t = ground (arith, t)
  authorize-remember hide q id l s (inr (auth_password, a)) es x h n t = ground (arith, t)
  authorize-remember hide q id l s (inr (auth_accept, a)) es x h n t = ground (arith, t)
  authorize-remember hide q id l s (inr (auth_quota_exceeded, a)) es x h n t =
      cached-remember _ _ s l es h n refl ∙ ap (λ y. remember es l y s) (some_eq _ x t)
  authorize-remember hide q id l s (inr (auth_no_trunk_found, a)) es x h n t =
      cached-remember _ _ s l es h n refl ∙ ap (λ y. remember es l y s) (some_eq _ x t)

  -- Once no call has the local tag.
  dispatch-remember :
      (s : Server) (v : Env) (q : Request) (id : Text) (l : Leg)
      (es : List ((Text × Text) × (ℕ × Text))) (x : ℕ × Text)
      → s.rejected ≡ some es
      → is_empty l.sip_call_id ≡ false
      → lookup id s.calls ≡ none
      → lookup id s.out_calls ≡ none
      → turned_away v.auth ≡ some x
      → (dispatch parse_credentials digest s v q id l).0 ≡ remember es l x s
  unfolding dispatch is_later is_later_out
  dispatch-remember s v q id l es x h n a b t =
      let hide = v.hide_inbound_port in
      let k = processing_keeps l in
      let m : Leg = if hide then l else processing l in
      let i : m.sip_call_id ≡ l.sip_call_id = ground (arith, k) in
      let j : m.tag ≡ l.tag = ground (arith, k) in
      let r = authorize-remember hide q id m s v.auth es x h (ap is_empty i ∙ n) t in
      let z : remember es m x s ≡ remember es l x s = ground (arith, i, j) in
      ground (arith, a, b, r, z)

  abbrev Replays : Server → ℕ → Server × Served → Type 0
  Replays s status again =
      (answers again.1 ≡ status ∷ [])
      × (again.1.started ≡ false)
      × (again.1.err ≡ none)
      × (again.1.counted ≡ [])
      × (again.0.calls ≡ s.calls)

  -- From the cache.
  second_time :
      (s : Server) (w : Env) (q : Request) (id : Text) (l : Leg)
      (es : List ((Text × Text) × (ℕ × Text))) (status : ℕ) (reason : Text)
      → q.source_ok ≡ true
      → new_inbound (remember es l (status, reason) s) w q ≡ inr (id, l)
      → l.has_tx ≡ true
      → l.sent ≡ []
      → Replays s status
          (process_invite parse_credentials digest (remember es l (status, reason) s) w q)
  unfolding process_invite validated replay find_rejected lookup_pair
  second_time s w q id l es status reason o e tx sent =
      let c = replayed l status reason (remember es l (status, reason) s).rejected tx sent in
      let x = text_eq_self l.sip_call_id in
      let y = text_eq_self l.tag in ground (arith, o, e, c, x, y)

  -- An INVITE that the answer of GetAuthCredentials has turned away, and that is sent again, is answered
  -- from the replay cache, whatever GetAuthCredentials would answer now: with the same code and
  -- nothing else, without an error, and no call is started and nothing is counted. The cache is
  -- enabled, and the INVITE belongs to no call and was not in the cache.
  pub replay-process_invite :
      (s : Server) (v w : Env) (q : Request) (id : Text) (l : Leg)
      (es : List ((Text × Text) × (ℕ × Text))) (status : ℕ) (reason : Text)
      → s.rejected ≡ some es
      → q.source_ok ≡ true
      → new_inbound s v q ≡ inr (id, l)
      → lookup_pair (l.sip_call_id, l.tag) es ≡ none
      → lookup id s.calls ≡ none
      → lookup id s.out_calls ≡ none
      → turned_away v.auth ≡ some (status, reason)
      → let again =
          process_invite parse_credentials digest
            (process_invite parse_credentials digest s v q).0
            w
            q in
        (answers again.1 ≡ status ∷ [])
        × (again.1.started ≡ false)
        × (again.1.err ≡ none)
        × (again.1.counted ≡ [])
        × (again.0.calls ≡ s.calls)
  unfolding process_invite validated replay find_rejected
  replay-process_invite s v w q id l es status reason h o e f a b t =
      let (n, tx, sent) = new_inbound_new s v q id l e in
      let d = dispatch-remember s v q id l es (status, reason) h n a b t in
      let s' = remember es l (status, reason) s in
      let first : (process_invite parse_credentials digest s v q).0 ≡ s' =
        ground (arith, o, e, h, f, d) in
      let (id', e') = new_inbound_leg s s' v w q id l e in
      subst (λ z. Replays s status (process_invite parse_credentials digest z w q)) (sym first)
        (second_time s w q id' l es status reason o e' tx sent)
