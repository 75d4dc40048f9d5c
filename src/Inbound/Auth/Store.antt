-- ===== src/Inbound/Auth/Store.antt =====
-- The invites in progress: at most 500, one entry for a Call-ID (`getInvite` of pkg/sip/inbound.go).
use sip_server.Prelude.{
  ℕ, suc, ◌+◌, ◌≤◌, ◌<◌, ◌≡◌, refl, inl, inr, false, Option, none, some, [], ◌∷◌, ◌++◌, length,
  length-append, arith, if◌then◌else◌, Text, text_eq, text_eq_self, text_eq→eq, Option-cases,
  Bool-cases,
}
use sip_server.Inbound.Auth.{
  Challenge, InProgressInvite, Store, digest_limit, find_invite, evict, fresh_invite,
  get_invite_from, get_invite, set_challenge, no_challenge,
}

-- How many entries have the Call-ID.
unfoldable pub entries : Text → Store → ℕ
entries id [] = 0
entries id (i ∷ s) = (if text_eq i.call_id id then 1 else 0) + entries id s

-- The entry of a Call-ID: its challenge, and how many entries are younger.
unfoldable pub place : Text → Store → Option (Challenge × ℕ)
place id [] = none
place id (i ∷ s) = if text_eq i.call_id id then some (i.challenge, length s) else place id s

-- At most `digest_limit` entries, no two of them with the same Call-ID.
pub record IsStore (s : Store) : Type 0 where
  pub bounded : length s ≤ digest_limit
  pub unique : (id : Text) → entries id s ≤ 1

entries-evict : (id : Text) (s : Store) → entries id (evict s) ≤ entries id s
unfolding evict entries
entries-evict id [] = ground arith
entries-evict id (i ∷ s) = ground arith

pub length-evict : (s : Store) → length s ≤ digest_limit → suc (length (evict s)) ≤ digest_limit
unfolding evict
length-evict [] h = ground arith
length-evict (i ∷ s) h = ground arith

entries-append : (id : Text) (s t : Store) → entries id (s ++ t) ≡ entries id s + entries id t
unfolding entries
entries-append id [] t = ground arith
entries-append id (i ∷ s) t = ground (arith, entries-append id s t)

entries-none : (id : Text) (s : Store) → find_invite id s ≡ none → entries id s ≡ 0
unfolding find_invite entries
entries-none id [] h = refl
entries-none id (i ∷ s) h = ground (arith, entries-none id s)

pub get_invite-IsStore : (id : Text) (s : Store) → IsStore s → IsStore (get_invite id s).1
unfolding get_invite get_invite_from entries
get_invite-IsStore id s v = elim (Option-cases (find_invite id s)) [
  | inr (i, f) ↦ ground arith
  | inl f ↦ record {
    bounded =
        ground (arith, v.bounded, length-evict s, length-append (evict s) (fresh_invite id ∷ []));
    unique = λ k. elim (Bool-cases (text_eq id k)) [
      | inl e ↦ ground (
        arith,
        text_eq→eq id k,
        entries-none id s,
        entries-evict k s,
        entries-append k (evict s) (fresh_invite id ∷ []),
      )
      | inr n ↦
          ground (
            arith,
            v.unique k,
            entries-evict k s,
            entries-append k (evict s) (fresh_invite id ∷ []),
          )
    ];
  }
]

length-set_challenge :
    (id : Text) (c : Challenge) (s : Store) → length (set_challenge id c s) ≡ length s
unfolding set_challenge
length-set_challenge id c [] = refl
length-set_challenge id c (i ∷ s) = ground (arith, length-set_challenge id c s)

entries-set_challenge :
    (k id : Text) (c : Challenge) (s : Store) → entries k (set_challenge id c s) ≡ entries k s
unfolding set_challenge entries
entries-set_challenge k id c [] = refl
entries-set_challenge k id c (i ∷ s) = ground (arith, entries-set_challenge k id c s)

pub set_challenge-IsStore :
    (id : Text) (c : Challenge) (s : Store) → IsStore s → IsStore (set_challenge id c s)
set_challenge-IsStore id c s v = record {
  bounded = ground (arith, length-set_challenge id c s, v.bounded);
  unique = λ k. ground (arith, entries-set_challenge k id c s, v.unique k);
}

-- The Call-ID is in progress with this challenge, and at most `n` entries are younger.
abbrev pub Keeps : Text → Challenge → ℕ → Store → Type 0
Keeps id c n s = (m : ℕ) × (m ≤ n) × (place id s ≡ some (c, m))

place-append :
    (id : Text) (s : Store) (x : InProgressInvite) (c : Challenge) (n : ℕ)
    → place id s ≡ some (c, n)
    → place id (s ++ (x ∷ [])) ≡ some (c, suc n)
unfolding place
place-append id [] x c n h = ground arith
place-append id (i ∷ s) x c n h = ground (arith, place-append id s x c n, length-append s (x ∷ []))

place-evict :
    (id : Text) (s : Store) {c : Challenge} {n : ℕ}
    → length s ≤ digest_limit
    → suc n < digest_limit
    → place id s ≡ some (c, n)
    → place id (evict s) ≡ some (c, n)
unfolding place evict
place-evict id [] b l h = h
place-evict id (i ∷ s) b l h = ground arith

pub get_invite-Keeps :
    (id k : Text) (s : Store) {c : Challenge} {n : ℕ}
    → length s ≤ digest_limit
    → suc n < digest_limit
    → Keeps id c n s
    → Keeps id c (suc n) (get_invite k s).1
unfolding get_invite get_invite_from
get_invite-Keeps id k s {c} b l (m, le, h) = elim (Option-cases (find_invite k s)) [
  | inr (i, f) ↦ (m, omega arith, ground arith)
  | inl f ↦ (
    suc m,
    omega arith,
    ground
        (arith, place-append id (evict s) (fresh_invite k) c m, place-evict id s b (omega arith) h),
  )
]

place-other :
    (id k : Text) (d : Challenge) (s : Store)
    → text_eq k id ≡ false
    → place id (set_challenge k d s) ≡ place id s
unfolding place set_challenge
place-other id k d [] e = refl
place-other id k d (i ∷ s) e =
    ground (arith, place-other id k d s, text_eq→eq i.call_id k, length-set_challenge k d s)

pub set_challenge-Keeps :
    (id k : Text) (d : Challenge) (s : Store) {c : Challenge} {n : ℕ}
    → text_eq k id ≡ false
    → Keeps id c n s
    → Keeps id c n (set_challenge k d s)
set_challenge-Keeps id k d s e (m, le, h) = (m, le, ground (arith, place-other id k d s))

place-set_challenge :
    (id : Text) (c d : Challenge) (m : ℕ) (s : Store)
    → place id s ≡ some (d, m)
    → place id (set_challenge id c s) ≡ some (c, m)
unfolding place set_challenge
place-set_challenge id c d m [] h = ground arith
place-set_challenge id c d m (i ∷ s) h =
    ground (arith, place-set_challenge id c d m s, length-set_challenge id c s)

find_invite-evict :
    (id : Text) (s : Store) → find_invite id s ≡ none → find_invite id (evict s) ≡ none
unfolding find_invite evict
find_invite-evict id [] h = h
find_invite-evict id (i ∷ s) h = ground arith

place-fresh :
    (id : Text) (s : Store)
    → find_invite id s ≡ none
    → place id (s ++ (fresh_invite id ∷ [])) ≡ some (no_challenge, 0)
unfolding find_invite place
place-fresh id [] h = ground (arith, text_eq_self id)
place-fresh id (i ∷ s) h = ground (arith, place-fresh id s)

-- A Call-ID that is new gets its challenge at the young end.
pub challenge-Keeps :
    (id : Text) (c : Challenge) (s : Store)
    → find_invite id s ≡ none
    → Keeps id c 0 (set_challenge id c (get_invite id s).1)
unfolding get_invite get_invite_from
challenge-Keeps id c s n = (
  0,
  omega arith,
  ground (
    arith,
    place-set_challenge id c no_challenge 0 (evict s ++ (fresh_invite id ∷ [])),
    place-fresh id (evict s),
    find_invite-evict id s n,
  ),
)

place-find :
    (id : Text) (c : Challenge) (m : ℕ) (s : Store)
    → place id s ≡ some (c, m)
    → (i : InProgressInvite) × (find_invite id s ≡ some i) × (i.challenge ≡ c)
unfolding place find_invite
place-find id c m [] h = ground arith
place-find id c m (i ∷ s) h = elim (Bool-cases (text_eq i.call_id id)) [
  | inl e ↦ (i, ground arith, ground arith)
  | inr e ↦ let (j, f, g) = place-find id c m s (ground arith) in (j, ground arith, g)
]

pub Keeps-get_invite :
    (id : Text) (c : Challenge) (n : ℕ) (s : Store)
    → Keeps id c n s
    → (get_invite id s).0.challenge ≡ c
unfolding get_invite get_invite_from
Keeps-get_invite id c n s (m, l, h) = let (i, f, g) = place-find id c m s h in ground arith

find_invite-fresh :
    (id : Text) (s : Store)
    → find_invite id s ≡ none
    → find_invite id (s ++ (fresh_invite id ∷ [])) ≡ some (fresh_invite id)
unfolding find_invite
find_invite-fresh id [] h = ground (arith, text_eq_self id)
find_invite-fresh id (i ∷ s) h = ground (arith, find_invite-fresh id s)

-- Asking once more for an invite gives the same.
pub get_invite_again :
    (id : Text) (s : Store) → (get_invite id (get_invite id s).1).0 ≡ (get_invite id s).0
unfolding get_invite get_invite_from
get_invite_again id s = elim (Option-cases (find_invite id s)) [
  | inl n ↦ rw (n, find_invite-fresh id (evict s) (find_invite-evict id s n)) refl
  | inr (i, f) ↦ rw (f, f) refl
]
