-- ===== src/Server/Routing/Stop.antt =====
-- When the server stops, its calls are over (pkg/sip/server.go).
use sip_server.Prelude.{
  ◌≡◌, refl, false, ◌⊎◌, inl, inr, none, List, [], ◌∷◌, map, arith, Text, if◌then◌else◌, Bool-cases,
  subst, sym,
}
use sip_server.Inbound.Call as Inbound
use sip_server.Inbound.Call.Closing.{IsOpen, IsOver, close-IsOver}
use sip_server.Server.Routing.{Calls, find, in_server, shut_listed, stop}

-- Every call that the server has is in progress.
abbrev pub AllOpen : List (Text × Inbound.Call) → Type 0
AllOpen [] = Unit
AllOpen ((t, c) ∷ m) = ((c.by_local_tag ≡ false) ⊎ IsOpen c) × AllOpen m

-- The calls that the server had are over, and the others are as they were.
abbrev pub AreOver : List (Text × Inbound.Call) → List (Text × Inbound.Call) → Type 0
AreOver [] [] = Unit
AreOver ((t, c) ∷ m) ((u, d) ∷ n) =
    (u ≡ t) × ((c.by_local_tag ≡ false) × (d ≡ c) ⊎ IsOver d) × AreOver m n
AreOver _ _ = ⊥

shut-IsOver :
    (c : Inbound.Call) → IsOpen c → IsOver (Inbound.shutdown (record c { by_local_tag = false }))
unfolding Inbound.shutdown Inbound.close_with_term
shut-IsOver c v =
    close-IsOver _ (record c { by_local_tag = false })
      (record {
        leg_inv = v.leg_inv;
        not_done = v.not_done;
        not_terminated = v.not_terminated;
        none_ended = v.none_ended;
        no_session_end = v.no_session_end;
        counted = v.counted;
      })

abbrev shut : Inbound.Call → Inbound.Call
shut c = if in_server c then Inbound.shutdown (record c { by_local_tag = false }) else c

shut_lem :
    (c : Inbound.Call)
    → (c.by_local_tag ≡ false) ⊎ IsOpen c
    → (c.by_local_tag ≡ false) × (shut c ≡ c) ⊎ IsOver (shut c)
shut_lem c h = elim (Bool-cases c.by_local_tag) [
  | inl e ↦ elim h [
    | inl n ↦ absurd (ground (arith, n, e))
    | inr v ↦
        subst
          (λ b.
            (c.by_local_tag ≡ false)
              × ((if b then Inbound.shutdown (record c { by_local_tag = false }) else c) ≡ c)
            ⊎ IsOver (if b then Inbound.shutdown (record c { by_local_tag = false }) else c))
          (sym e) (inr (shut-IsOver c v))
  ]
  | inr n ↦ inl (n, ground (arith, n))
]

shut-unlisted :
    (c : Inbound.Call) → (c.by_local_tag ≡ false) ⊎ IsOpen c → in_server (shut c) ≡ false
shut-unlisted c h = elim (shut_lem c h) [ inl p ↦ ground (arith, p.0, p.1) | inr o ↦ o.unlisted ]

list-AreOver : (m : List (Text × Inbound.Call)) → AllOpen m → AreOver m (map shut_listed m)
unfolding shut_listed
list-AreOver [] h = tt
list-AreOver ((t, c) ∷ m) (h, hs) = (refl, shut_lem c h, list-AreOver m hs)

list-none :
    (u : Text) (m : List (Text × Inbound.Call))
    → AllOpen m
    → find in_server u (map shut_listed m) ≡ none
unfolding shut_listed find
list-none u [] h = refl
list-none u ((t, c) ∷ m) (h, hs) = ground (arith, shut-unlisted c h, list-none u m hs)

-- If the calls that the server has are in progress, then after `Stop` they are over, each with one
-- termination and one end of its session, all other calls are as they were, and the server finds no
-- call under any tag.
pub stop-AreOver :
    (w : Calls) (u : Text)
    → AllOpen w.inbound
    → AreOver w.inbound (stop w).inbound × (find in_server u (stop w).inbound ≡ none)
unfolding stop
stop-AreOver w u h = (list-AreOver w.inbound h, list-none u w.inbound h)
