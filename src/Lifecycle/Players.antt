-- ===== src/Lifecycle/Players.antt =====
-- What the writes of the match handlers do to the players of a match.
use inhouse_maker_core_serve.Common.{
  ℕ, ◌+◌, ◌≡◌, refl, ap, true, ◌⊎◌, inl, inr, Option, none, some, List, [], ◌∷◌, ◌++◌, map, arith,
  Bool-cases, Option-cases, eq_nat, nat_eq, contains, Has, IsDistinct, Has→contains,
  Has-append_left,
}
use mathlib.Core.List.{map-append}
use mathlib.Core.Path.{subst}
use inhouse_maker_core_serve.Model.Rows.{Match, MatchPlayer, Assignment}
use inhouse_maker_core_serve.Model.World.{World}
use inhouse_maker_core_serve.Matches.Roster.{
  PlayerInput, user_ids, new_inputs, create_inputs, insertable,
}
use inhouse_maker_core_serve.Matches.Teams.{seat_one, seat_all}

abbrev pub ids : List MatchPlayer → List ℕ
ids ps = map (λ p. p.user_id) ps

-- A change of other columns leaves the user ids alone.
pub ids-map :
    (f : MatchPlayer → MatchPlayer) (ps : List MatchPlayer)
    → ((p : MatchPlayer) → (f p).user_id ≡ p.user_id)
    → ids (map f ps) ≡ ids ps
ids-map f [] h = refl
ids-map f (p ∷ ps) h = rw (h p, ids-map f ps h)

-- What a lookup that may fail yields, if it yields.
abbrev IdsAre : List ℕ → Option (List MatchPlayer) → Type 0
IdsAre xs none = Unit
IdsAre xs (some qs) = ids qs ≡ xs

ids-seat_one : (a : Assignment) (ps : List MatchPlayer) → IdsAre (ids ps) (seat_one a ps)
unfolding seat_one
ids-seat_one a [] = tt
ids-seat_one a (p ∷ ps) = elim (Bool-cases (eq_nat p.user_id a.user_id)) [
  | inl here ↦ rw here refl
  | inr later ↦ elim (Option-cases (seat_one a ps)) [
    | inl missing ↦ rw (later, missing) tt
    | inr (qs, found) ↦
        let same : ids qs ≡ ids ps = rw found at (ids-seat_one a ps) in
        rw (later, found) (ap (λ xs. p.user_id ∷ xs) same)
  ]
]

pub ids-seat_all :
    (seats : List Assignment) (ps : List MatchPlayer) → IdsAre (ids ps) (seat_all seats ps)
unfolding seat_all
ids-seat_all [] ps = refl
ids-seat_all (a ∷ rest) ps = elim (Option-cases (seat_one a ps)) [
  | inl missing ↦ rw (missing, seat_all) tt
  | inr (qs, found) ↦
      let same : ids qs ≡ ids ps = rw found at (ids-seat_one a ps) in
      rw (found, seat_all) (subst (λ xs. IdsAre xs (seat_all rest qs)) same (ids-seat_all rest qs))
]

Has-append : (x : ℕ) (xs ys : List ℕ) → Has x (xs ++ ys) → Has x xs ⊎ Has x ys
Has-append x [] ys h = inr h
Has-append x (y ∷ xs) ys (inl h) = inl (inl h)
Has-append x (y ∷ xs) ys (inr h) = elim (Has-append x xs ys h) [
  | inl k ↦ inl (inr k)
  | inr k ↦ inr k
]

IsDistinct-append :
    (xs ys : List ℕ)
    → IsDistinct xs
    → IsDistinct ys
    → ((x : ℕ) → Has x xs → Has x ys → ⊥)
    → IsDistinct (xs ++ ys)
IsDistinct-append [] ys h k apart = k
IsDistinct-append (x ∷ xs) ys (hx, h) k apart = (
  λ m. elim (Has-append x xs ys m) [ inl n ↦ hx n | inr n ↦ apart x (inl refl) n ],
  IsDistinct-append xs ys h k (λ y l r. apart y (inr l) r),
)

ids-create_inputs :
    (w : World) (fresh : ℕ) (is : List PlayerInput)
    → ids (create_inputs w fresh is) ≡ map (λ i. i.user_id) is
unfolding create_inputs
ids-create_inputs w fresh [] = refl
ids-create_inputs w fresh (i ∷ is) = ap (λ xs. i.user_id ∷ xs) (ids-create_inputs w (fresh + 1) is)

-- The database takes only rows of different users.
insertable-IsDistinct :
    (w : World) (is : List PlayerInput)
    → insertable w is ≡ true
    → IsDistinct (map (λ i. i.user_id) is)
unfolding insertable
insertable-IsDistinct w [] h = tt
insertable-IsDistinct w (i ∷ is) h = (
  λ m. let e = Has→contains i.user_id (map (λ j. j.user_id) is) m in ground arith,
  insertable-IsDistinct w is (ground arith),
)

new_inputs-apart :
    (m : Match) (is : List PlayerInput) (x : ℕ)
    → Has x (user_ids m)
    → Has x (map (λ i. i.user_id) (new_inputs m is))
    → ⊥
unfolding new_inputs
new_inputs-apart m [] x old new = new
new_inputs-apart m (i ∷ is) x old new = elim (Bool-cases (contains i.user_id (user_ids m))) [
  | inl known ↦ new_inputs-apart m is x old (rw known at new)
  | inr unknown ↦ elim (rw unknown at new) [
    | inl same ↦
        let e = Has→contains x (user_ids m) old in
        let f : contains i.user_id (user_ids m) ≡ true = rw (← same) e in cc
    | inr later ↦ new_inputs-apart m is x old later
  ]
]

-- Players added by `createMany` keep the user ids distinct, and those that were there stay.
module _ (w : World) (m : Match) (fresh : ℕ) (is : List PlayerInput) where
  pub IsDistinct-after_insert :
      IsDistinct (user_ids m)
      → insertable w (new_inputs m is) ≡ true
      → IsDistinct (ids (m.players ++ create_inputs w fresh (new_inputs m is)))
  IsDistinct-after_insert h ok_rows =
      rw (map-append, ids-create_inputs w fresh (new_inputs m is))
        (IsDistinct-append (user_ids m) (map (λ i. i.user_id) (new_inputs m is)) h
          (insertable-IsDistinct w (new_inputs m is) ok_rows) (new_inputs-apart m is))

pub Has-ids_append : (x : ℕ) (ps qs : List MatchPlayer) → Has x (ids ps) → Has x (ids (ps ++ qs))
Has-ids_append x ps qs h = rw map-append (Has-append_left x (ids ps) (ids qs) h)
