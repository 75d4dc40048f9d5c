-- ===== src/Transfer/Listed.antt =====
-- The map of the transfers and their objects (pkg/sip/service.go).
use sip_server.Prelude.{
  ℕ, ◌≡◌, ◌≢◌, refl, sym, Bool, true, false, none, some, List, [], ◌∷◌, arith, Text, text_eq,
  text_eq_self, text_eq→eq, Bool-cases, inl, inr, subst, ◌∙◌, eq_or_ne,
}
use sip_server.Transfer.{Worker, returned, Pending, modify, find_pending, delete_pending, get_elem?}
use sip_server.Transfer.Objects.{get_elem?-modify, get_elem?-modify_at, get_elem?-modify_other}

-- The worker has statements left.
abbrev pub is_live : Worker → Bool
is_live (returned o) = false
is_live _ = true

-- The map names the objects whose workers are live, under their calls.
pub record IsListed (store : List Pending) (m : List (Text × ℕ)) : Type 0 where
  pub listed :
      (i : ℕ) (p : Pending)
      → get_elem? store i ≡ some p
      → is_live p.worker ≡ true
      → find_pending p.call_id m ≡ some i
  pub held :
      (c : Text) (i : ℕ)
      → find_pending c m ≡ some i
      → (p : Pending) × (get_elem? store i ≡ some p) × (p.call_id ≡ c) × (is_live p.worker ≡ true)

find_pending-delete_other :
    (c d : Text) (m : List (Text × ℕ))
    → text_eq c d ≡ false
    → find_pending c (delete_pending d m) ≡ find_pending c m
unfolding find_pending delete_pending
find_pending-delete_other c d [] n = refl
find_pending-delete_other c d ((x, r) ∷ m) n =
    let k = find_pending-delete_other c d m n in
    elim (Bool-cases (text_eq d x)) [
      | inl t ↦
          let u : text_eq c x ≡ false = subst (λ y. text_eq c y ≡ false) (text_eq→eq d x t) n in
          ground (arith, t, u, k)
      | inr f ↦ ground (arith, f, k)
    ]

find_pending-delete_self :
    (c : Text) (m : List (Text × ℕ)) → find_pending c (delete_pending c m) ≡ none
unfolding find_pending delete_pending
find_pending-delete_self c [] = refl
find_pending-delete_self c ((x, r) ∷ m) = let k = find_pending-delete_self c m in ground (arith, k)

pub text_ne : (c d : Text) → c ≢ d → text_eq c d ≡ false
text_ne c d n = elim (Bool-cases (text_eq c d)) [
  | inl t ↦ elim (n (text_eq→eq c d t)) [ ]
  | inr f ↦ f
]

-- Changes of an object that keep its call, and whether its worker is live.
module _ (r : ℕ) (f : Pending → Pending) (store : List Pending) where
  unfoldable pub Keeps : Type 0
  Keeps =
      (p : Pending)
      → get_elem? store r ≡ some p
      → ((f p).call_id ≡ p.call_id) × (is_live (f p).worker ≡ is_live p.worker)

  kept :
      (i : ℕ) (q : Pending)
      → Keeps
      → get_elem? (modify r f store) i ≡ some q
      → (p : Pending) × (get_elem? store i ≡ some p)
        × (q.call_id ≡ p.call_id)
        × (is_live q.worker ≡ is_live p.worker)
  unfolding Keeps
  kept i q h g =
      let (p, e, k) = get_elem?-modify r i f store q g in
      let j : (q.call_id ≡ p.call_id) × (is_live q.worker ≡ is_live p.worker) = elim k [
        | inl (a, b) ↦
            let e' : get_elem? store r ≡ some p =
              subst (λ n. get_elem? store n ≡ some p) (sym a) e in
            ground (arith, b, h p e')
        | inr (a, b) ↦ ground (arith, b)
      ] in
      (p, e, j.0, j.1)

  kept_back :
      (i : ℕ) (p : Pending)
      → Keeps
      → get_elem? store i ≡ some p
      → (q : Pending) × (get_elem? (modify r f store) i ≡ some q)
        × (q.call_id ≡ p.call_id)
        × (is_live q.worker ≡ is_live p.worker)
  unfolding Keeps
  kept_back i p h e = elim (eq_or_ne r i) [
    | inl a ↦
        let e' : get_elem? store r ≡ some p = subst (λ n. get_elem? store n ≡ some p) (sym a) e in
        (
          f p,
          subst (λ n. get_elem? (modify r f store) n ≡ some (f p)) a
              (get_elem?-modify_at r f store p e'),
          (h p e').0,
          (h p e').1,
        )
    | inr n ↦ (p, get_elem?-modify_other r i f store n ∙ e, refl, refl)
  ]

  pub keep-IsListed :
      (m : List (Text × ℕ)) → Keeps → IsListed store m → IsListed (modify r f store) m
  keep-IsListed m h v = record {
    listed = λ i q g l.
        let (p, e, c, k) = kept i q h g in
        subst (λ x. find_pending x m ≡ some i) (sym c) (v.listed i p e (sym k ∙ l));
    held = λ c i g.
        let (p, e, k, l) = v.held c i g in
        let (q, z, a, b) = kept_back i p h e in (q, z, a ∙ k, b ∙ l);
  }

pub same_at :
    (store : List Pending) (r i : ℕ) (p q : Pending)
    → get_elem? store r ≡ some p
    → get_elem? store i ≡ some q
    → r ≡ i
    → q ≡ p
same_at store r i p q a b e =
    let b' : get_elem? store r ≡ some q = subst (λ n. get_elem? store n ≡ some q) (sym e) b in
    ground (arith, a, b')

-- The worker's last statement takes its call out of the map.
module _ (r : ℕ) (store : List Pending) (m : List (Text × ℕ)) (p : Pending) (f : Pending → Pending)
    (at : get_elem? store r ≡ some p) (live : is_live p.worker ≡ true) (v : IsListed store m) where
  -- no other live worker has this call
  other_call :
      (i : ℕ) (q : Pending)
      → get_elem? store i ≡ some q
      → is_live q.worker ≡ true
      → r ≢ i
      → text_eq q.call_id p.call_id ≡ false
  other_call i q e l n = text_ne q.call_id p.call_id (λ c.
      let a = v.listed r p at live in
      let b = subst (λ x. find_pending x m ≡ some i) c (v.listed i q e l) in
      n (ground (arith, a, b)))

  delete-listed :
      (i : ℕ) (q : Pending)
      → is_live (f p).worker ≡ false
      → get_elem? (modify r f store) i ≡ some q
      → is_live q.worker ≡ true
      → find_pending q.call_id (delete_pending p.call_id m) ≡ some i
  delete-listed i q d g k =
      let (x, e, c) = get_elem?-modify r i f store q g in
      elim c [
        | inl (a, b) ↦ let s = same_at store r i p x at e a in ground (arith, s, b, d, k)
        | inr (n, b) ↦
            let l : is_live x.worker ≡ true = ground (arith, b, k) in
            let o = find_pending-delete_other x.call_id p.call_id m (other_call i x e l n) in
            subst (λ y. find_pending y.call_id (delete_pending p.call_id m) ≡ some i) (sym b)
              (o ∙ v.listed i x e l)
      ]

  delete-held :
      (c : Text) (i : ℕ)
      → find_pending c (delete_pending p.call_id m) ≡ some i
      → (q : Pending) × (get_elem? (modify r f store) i ≡ some q)
        × (q.call_id ≡ c)
        × (is_live q.worker ≡ true)
  delete-held c i g = elim (Bool-cases (text_eq c p.call_id)) [
    | inl t ↦
        let n = find_pending-delete_self p.call_id m in
        let g' =
          subst (λ x. find_pending x (delete_pending p.call_id m) ≡ some i)
            (text_eq→eq c p.call_id t) g in
        ground (arith, n, g')
    | inr u ↦
        let g' = sym (find_pending-delete_other c p.call_id m u) ∙ g in
        let (q, e, k, l) = v.held c i g' in
        let n : r ≢ i =
          (λ z. let s = same_at store r i p q at e z in ground (arith, s, k, u, text_eq_self c)) in
        (q, get_elem?-modify_other r i f store n ∙ e, k, l)
  ]

  pub delete-IsListed :
      is_live (f p).worker ≡ false → IsListed (modify r f store) (delete_pending p.call_id m)
  delete-IsListed d = record { listed = λ i q g k. delete-listed i q d g k; held = delete-held }
