-- ===== src/Transfer/Objects.antt =====
-- Changes of one object among those that a service has created.
use sip_server.Prelude.{
  ℕ, zero, suc, ◌≡◌, ◌≢◌, refl, ap, some, List, [], ◌∷◌, ◌++◌, map, All, arith, length, ◌<◌, ◌⊎◌,
  inl, inr,
}
use sip_server.Transfer.{modify, get_elem?}

module _ {A : Type 0} (P : A → Type 0) where
  pub modify-All :
      (r : ℕ) (f : A → A) (ps : List A)
      → ((p : A) → P p → P (f p))
      → All P ps
      → All P (modify r f ps)
  modify-All r f [] h a = a
  modify-All zero f (p ∷ ps) h (a, b) = (h p a, b)
  modify-All (suc r) f (p ∷ ps) h (a, b) = (a, modify-All r f ps h b)

  pub append-All : (ps : List A) (p : A) → All P ps → P p → All P (ps ++ p ∷ [])
  append-All [] p a v = (v, a)
  append-All (q ∷ ps) p (a, b) v = (a, append-All ps p b v)

  pub get_elem?-All : (r : ℕ) (ps : List A) (p : A) → All P ps → get_elem? ps r ≡ some p → P p
  get_elem?-All r [] p a e = ground (arith, e)
  get_elem?-All zero (q ∷ ps) p (a, b) e = ground (arith, e)
  get_elem?-All (suc r) (q ∷ ps) p (a, b) e = get_elem?-All r ps p b e

module _ {A B : Type 0} (a : A → B) where
  pub length-map : (ps : List A) → length (map a ps) ≡ length ps
  length-map [] = refl
  length-map (p ∷ ps) = ap suc (length-map ps)

  pub map_append : (ps : List A) (p : A) → map a (ps ++ p ∷ []) ≡ map a ps ++ a p ∷ []
  map_append [] p = refl
  map_append (q ∷ ps) p = ap (λ l. a q ∷ l) (map_append ps p)

  pub map-modify :
      (r : ℕ) (f : A → A) (g : B → B) (ps : List A)
      → ((p : A) → get_elem? ps r ≡ some p → a (f p) ≡ g (a p))
      → map a (modify r f ps) ≡ modify r g (map a ps)
  map-modify r f g [] h = refl
  map-modify zero f g (p ∷ ps) h = ap (λ b. b ∷ map a ps) (h p refl)
  map-modify (suc r) f g (p ∷ ps) h = ap (λ l. a p ∷ l) (map-modify r f g ps h)

  pub map-modify_same :
      (r : ℕ) (f : A → A) (ps : List A)
      → ((p : A) → get_elem? ps r ≡ some p → a (f p) ≡ a p)
      → map a (modify r f ps) ≡ map a ps
  map-modify_same r f [] h = refl
  map-modify_same zero f (p ∷ ps) h = ap (λ b. b ∷ map a ps) (h p refl)
  map-modify_same (suc r) f (p ∷ ps) h = ap (λ l. a p ∷ l) (map-modify_same r f ps h)

  pub map-modify_idle :
      (r : ℕ) (g : B → B) (ps : List A)
      → ((p : A) → get_elem? ps r ≡ some p → a p ≡ g (a p))
      → map a ps ≡ modify r g (map a ps)
  map-modify_idle r g [] h = refl
  map-modify_idle zero g (p ∷ ps) h = ap (λ b. b ∷ map a ps) (h p refl)
  map-modify_idle (suc r) g (p ∷ ps) h = ap (λ l. a p ∷ l) (map-modify_idle r g ps h)

module _ {A : Type 0} where
  pub modify_append :
      (f : A → A) (ps : List A) (p : A) → modify (length ps) f (ps ++ p ∷ []) ≡ ps ++ f p ∷ []
  modify_append f [] p = refl
  modify_append f (q ∷ ps) p = ap (λ l. q ∷ l) (modify_append f ps p)

  pub get_elem?-modify :
      (r i : ℕ) (f : A → A) (ps : List A) (q : A)
      → get_elem? (modify r f ps) i ≡ some q
      → (p : A) × (get_elem? ps i ≡ some p) × (((r ≡ i) × (q ≡ f p)) ⊎ ((r ≢ i) × (q ≡ p)))
  get_elem?-modify r i f [] q e = ground (arith, e)
  get_elem?-modify zero zero f (p ∷ ps) q e = (p, refl, inl (refl, ground (arith, e)))
  get_elem?-modify zero (suc i) f (p ∷ ps) q e = (q, e, inr (ground arith, refl))
  get_elem?-modify (suc r) zero f (p ∷ ps) q e = (q, e, inr (ground arith, refl))
  get_elem?-modify (suc r) (suc i) f (p ∷ ps) q e =
      let (x, g, k) = get_elem?-modify r i f ps q e in
      (
        x,
        g,
        elim k [ inl (a, b) ↦ inl (ap suc a, b) | inr (a, b) ↦ inr (λ z. a (omega (arith, z)), b) ],
      )

  pub get_elem?-modify_at :
      (r : ℕ) (f : A → A) (ps : List A) (p : A)
      → get_elem? ps r ≡ some p
      → get_elem? (modify r f ps) r ≡ some (f p)
  get_elem?-modify_at r f [] p e = ground (arith, e)
  get_elem?-modify_at zero f (q ∷ ps) p e = ground (arith, e)
  get_elem?-modify_at (suc r) f (q ∷ ps) p e = get_elem?-modify_at r f ps p e

  pub get_elem?-modify_other :
      (r i : ℕ) (f : A → A) (ps : List A) → r ≢ i → get_elem? (modify r f ps) i ≡ get_elem? ps i
  get_elem?-modify_other r i f [] n = refl
  get_elem?-modify_other zero zero f (q ∷ ps) n = ground (arith, n)
  get_elem?-modify_other zero (suc i) f (q ∷ ps) n = refl
  get_elem?-modify_other (suc r) zero f (q ∷ ps) n = refl
  get_elem?-modify_other (suc r) (suc i) f (q ∷ ps) n =
      get_elem?-modify_other r i f ps (λ e. n (ap suc e))

  pub get_elem?-append_old :
      (i : ℕ) (ps qs : List A) → i < length ps → get_elem? (ps ++ qs) i ≡ get_elem? ps i
  get_elem?-append_old i [] qs h = ground (arith, h)
  get_elem?-append_old zero (p ∷ ps) qs h = refl
  get_elem?-append_old (suc i) (p ∷ ps) qs h = get_elem?-append_old i ps qs (omega (arith, h))

  pub get_elem?-append_new : (ps : List A) (p : A) → get_elem? (ps ++ p ∷ []) (length ps) ≡ some p
  get_elem?-append_new [] p = refl
  get_elem?-append_new (q ∷ ps) p = get_elem?-append_new ps p

  pub get_elem?-bound : (i : ℕ) (ps : List A) (p : A) → get_elem? ps i ≡ some p → i < length ps
  get_elem?-bound i [] p e = ground (arith, e)
  get_elem?-bound zero (q ∷ ps) p e = omega arith
  get_elem?-bound (suc i) (q ∷ ps) p e = omega (arith, get_elem?-bound i ps p e)

  pub get_elem?-append_cases :
      (i : ℕ) (ps : List A) (p q : A)
      → get_elem? (ps ++ p ∷ []) i ≡ some q
      → (get_elem? ps i ≡ some q) ⊎ ((i ≡ length ps) × (q ≡ p))
  get_elem?-append_cases zero [] p q e = ground (arith, e)
  get_elem?-append_cases (suc i) [] p q e = ground (arith, e)
  get_elem?-append_cases zero (x ∷ ps) p q e = inl e
  get_elem?-append_cases (suc i) (x ∷ ps) p q e = elim (get_elem?-append_cases i ps p q e) [
    | inl h ↦ inl h
    | inr (k, h) ↦ inr (ap suc k, h)
  ]
