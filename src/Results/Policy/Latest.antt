-- ===== src/Results/Policy/Latest.antt =====
-- The map of latest confirmations of results/result-confirmation-policy.service.ts, against what it
-- is for.
use inhouse_maker_core_serve.Common.{
  IsDistinct-append_last, ◌≤◌, ◌≡◌, refl, true, inl, inr, List, [], ◌∷◌, ◌++◌, map, arith,
  Bool-cases, any, All, Exists, All-append, All-weaken, All-Exists, Exists-weaken, any→Exists,
  IsDistinct, nat_eq, eq_nat_iff, ℕ,
}
use inhouse_maker_core_serve.Common.Sorting.{sort}
use inhouse_maker_core_serve.Common.Sorting.Laws.{All-sort, All-of_sort, IsSorted, sort-IsSorted}
use inhouse_maker_core_serve.Model.Rows.{Confirmation}
use inhouse_maker_core_serve.Results.Policy.{
  is_older, by_user, keep_one, keep_first, latest_by_user,
}

abbrev pub user : Confirmation → ℕ
user c = c.user_id

-- `d` is of the same user as `c`, and not older.
abbrev pub Supersedes : Confirmation → Confirmation → Type 0
Supersedes c d = (d.user_id ≡ c.user_id) × (c.created_at ≤ d.created_at)

abbrev pub Listed : List Confirmation → Confirmation → Type 0
Listed cs c = Exists (λ d. d ≡ c) cs

-- `latest` holds confirmations out of `cs`, no two of one user, and for each of `cs` one of the
-- same user that is not older.
pub record IsLatest (cs latest : List Confirmation) : Type 0 where
  pub listed : All (Listed cs) latest
  pub one_each : IsDistinct (map user latest)
  pub newest : All (λ c. Exists (Supersedes c) latest) cs

abbrev NotNewer : Confirmation → Confirmation → Type 0
NotNewer c d = d.created_at ≤ c.created_at

keep_one-All :
    (P : Confirmation → Type 0) (latest : List Confirmation) (c : Confirmation)
    → All P latest
    → P c
    → All P (keep_one latest c)
unfolding keep_one
keep_one-All P latest c h k = elim (Bool-cases (any (by_user c.user_id) latest)) [
  | inl old ↦ rw old h
  | inr new ↦ rw new (All-append P latest (c ∷ []) h (k, tt))
]

keep_first-All :
    (P : Confirmation → Type 0) (latest cs : List Confirmation)
    → All P latest
    → All P cs
    → All P (keep_first latest cs)
unfolding keep_first
keep_first-All P latest [] h k = h
keep_first-All P latest (c ∷ cs) h (kc, k) =
    keep_first-All P (keep_one latest c) cs (keep_one-All P latest c h kc) k

Exists-append :
    (P : Confirmation → Type 0) (xs ys : List Confirmation) → Exists P xs → Exists P (xs ++ ys)
Exists-append P [] ys h = absurd h
Exists-append P (x ∷ xs) ys (inl h) = inl h
Exists-append P (x ∷ xs) ys (inr h) = inr (Exists-append P xs ys h)

Exists-append_last :
    (P : Confirmation → Type 0) (xs : List Confirmation) (c : Confirmation)
    → P c
    → Exists P (xs ++ c ∷ [])
Exists-append_last P [] c h = inl h
Exists-append_last P (x ∷ xs) c h = inr (Exists-append_last P xs c h)

keep_one-Exists :
    (P : Confirmation → Type 0) (latest : List Confirmation) (c : Confirmation)
    → Exists P latest
    → Exists P (keep_one latest c)
unfolding keep_one
keep_one-Exists P latest c h = elim (Bool-cases (any (by_user c.user_id) latest)) [
  | inl old ↦ rw old h
  | inr new ↦ rw new (Exists-append P latest (c ∷ []) h)
]

keep_first-Exists :
    (P : Confirmation → Type 0) (latest cs : List Confirmation)
    → Exists P latest
    → Exists P (keep_first latest cs)
unfolding keep_first
keep_first-Exists P latest [] h = h
keep_first-Exists P latest (c ∷ cs) h =
    keep_first-Exists P (keep_one latest c) cs (keep_one-Exists P latest c h)

-- What an earlier confirmation of the user, which is not older, gives for a later one.
Supersedes-of_kept :
    (c : Confirmation) (latest : List Confirmation)
    → All (λ d. NotNewer d c) latest
    → any (by_user c.user_id) latest ≡ true
    → Exists (Supersedes c) latest
Supersedes-of_kept c latest h found =
    Exists-weaken (λ d. NotNewer d c × (by_user c.user_id d ≡ true)) (Supersedes c) latest
      (λ d p. ((eq_nat_iff d.user_id c.user_id).0 p.1, p.0))
      (All-Exists (λ d. NotNewer d c) (λ d. by_user c.user_id d ≡ true) latest h
        (any→Exists (by_user c.user_id) latest found))

keep_one-newest :
    (c : Confirmation) (latest : List Confirmation)
    → All (λ d. NotNewer d c) latest
    → Exists (Supersedes c) (keep_one latest c)
unfolding keep_one
keep_one-newest c latest h = elim (Bool-cases (any (by_user c.user_id) latest)) [
  | inl old ↦ rw old (Supersedes-of_kept c latest h old)
  | inr new ↦ rw new (Exists-append_last (Supersedes c) latest c (refl, omega arith))
]

abbrev NoneNewer : List Confirmation → Confirmation → Type 0
NoneNewer cs d = All (NotNewer d) cs

keep_first-newest :
    (latest cs : List Confirmation)
    → All (NoneNewer cs) latest
    → IsSorted NotNewer cs
    → All (λ c. Exists (Supersedes c) (keep_first latest cs)) cs
unfolding keep_first
keep_first-newest latest [] h s = tt
keep_first-newest latest (c ∷ cs) h (sc, s) =
    let rest = All-weaken (NoneNewer (c ∷ cs)) (NoneNewer cs) latest (λ d p. p.1) h in
    let here = All-weaken (NoneNewer (c ∷ cs)) (λ d. NotNewer d c) latest (λ d p. p.0) h in
    (
      keep_first-Exists (Supersedes c) (keep_one latest c) cs (keep_one-newest c latest here),
      keep_first-newest (keep_one latest c) cs (keep_one-All (NoneNewer cs) latest c rest sc) s,
    )

keep_one-one_each :
    (latest : List Confirmation) (c : Confirmation)
    → IsDistinct (map user latest)
    → IsDistinct (map user (keep_one latest c))
unfolding keep_one
keep_one-one_each latest c h = elim (Bool-cases (any (by_user c.user_id) latest)) [
  | inl old ↦ rw old h
  | inr new ↦ rw new (IsDistinct-append_last user latest c h new)
]

keep_first-one_each :
    (latest cs : List Confirmation)
    → IsDistinct (map user latest)
    → IsDistinct (map user (keep_first latest cs))
unfolding keep_first
keep_first-one_each latest [] h = h
keep_first-one_each latest (c ∷ cs) h =
    keep_first-one_each (keep_one latest c) cs (keep_one-one_each latest c h)

pub All-Listed_self : (cs : List Confirmation) → All (Listed cs) cs
All-Listed_self [] = tt
All-Listed_self (c ∷ cs) =
    (inl refl, All-weaken (Listed cs) (Listed (c ∷ cs)) cs (λ d h. inr h) (All-Listed_self cs))

sort-IsSorted_newest : (cs : List Confirmation) → IsSorted NotNewer (sort is_older cs)
sort-IsSorted_newest cs =
    sort-IsSorted is_older NotNewer (λ x y z h k. omega arith) (λ x y h. ground arith)
      (λ x y h. ground arith) cs

-- Whatever order the confirmations are in, the map holds the newest one of each user.
pub latest_by_user-IsLatest : (cs : List Confirmation) → IsLatest cs (latest_by_user cs)
unfolding latest_by_user
latest_by_user-IsLatest cs = record {
  listed =
      keep_first-All (Listed cs) [] (sort is_older cs) tt
        (All-sort is_older (Listed cs) cs (All-Listed_self cs));
  one_each = keep_first-one_each [] (sort is_older cs) tt;
  newest =
      All-of_sort is_older (λ c. Exists (Supersedes c) (latest_by_user cs)) cs
        (keep_first-newest [] (sort is_older cs) tt (sort-IsSorted_newest cs));
}
