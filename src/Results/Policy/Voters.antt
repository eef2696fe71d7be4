-- ===== src/Results/Policy/Voters.antt =====
-- Who said what, by the newest confirmation of each: what a count over the latest confirmations of
-- results/result-confirmation-policy.service.ts says of the confirmations themselves.
use inhouse_maker_core_serve.Common.{
  IsDistinct-filter, ℕ, suc, ◌≤◌, ◌≡◌, refl, sym, ◌∙◌, ap, Bool, true, ◌&&◌, inl, inr, List, [],
  ◌∷◌, map, arith, Bool-cases, any, filter, length, All, Exists, All-weaken, Exists-weaken,
  any→Exists, IsDistinct, Has, nat_eq, All-Exists,
}
use inhouse_maker_core_serve.Model.Rows.{Confirmation}
use inhouse_maker_core_serve.Results.Policy.{by_user, latest_by_user}
use inhouse_maker_core_serve.Results.Policy.Latest.{
  user, Listed, Supersedes, IsLatest, latest_by_user-IsLatest, All-Listed_self,
}

-- No confirmation of the same user is newer.
abbrev pub IsNewest : List Confirmation → Confirmation → Type 0
IsNewest cs c = All (λ d. d.user_id ≡ c.user_id → d.created_at ≤ c.created_at) cs

-- A newest confirmation among `cs` of the user `u` passes the test `q`.
abbrev pub Says : (Confirmation → Bool) → List Confirmation → ℕ → Type 0
Says q cs u = Exists (λ c. (c.user_id ≡ u) × IsNewest cs c × (q c ≡ true)) cs

Has-map-user :
    (x : ℕ) (P : Confirmation → Type 0) (l : List Confirmation)
    → ((e : Confirmation) → P e → x ≡ e.user_id)
    → Exists P l
    → Has x (map user l)
Has-map-user x P [] f h = h
Has-map-user x P (e ∷ l) f (inl h) = inl (f e h)
Has-map-user x P (e ∷ l) f (inr h) = inr (Has-map-user x P l f h)

-- In a list with one entry for each user, what holds of some entry of a user holds of each.
only_one :
    (P : Confirmation → Type 0) (c : Confirmation) (l : List Confirmation)
    → IsDistinct (map user l)
    → Listed l c
    → Exists (λ e. (e.user_id ≡ c.user_id) × P e) l
    → P c
only_one P c [] d m h = absurd m
only_one P c (x ∷ xs) (dx, d) (inl same) (inl (_, p)) = rw (← same) p
only_one P c (x ∷ xs) (dx, d) (inl same) (inr h) = absurd (
    dx (
      Has-map-user x.user_id (λ e. (e.user_id ≡ c.user_id) × P e) xs (λ e p. ap user same ∙ sym p.0)
        h))
only_one P c (x ∷ xs) (dx, d) (inr m) (inl (u, _)) =
    absurd (dx (Has-map-user x.user_id (λ e. e ≡ c) xs (λ e p. u ∙ sym (ap user p)) m))
only_one P c (x ∷ xs) (dx, d) (inr m) (inr h) = only_one P c xs d m h

latest-IsNewest :
    (cs latest : List Confirmation)
    → IsLatest cs latest
    → (c : Confirmation) → Listed latest c
    → IsNewest cs c
latest-IsNewest cs latest l c m =
    All-weaken (λ d. Exists (Supersedes d) latest)
      (λ d. d.user_id ≡ c.user_id → d.created_at ≤ c.created_at) cs
      (λ d found same.
        only_one (λ e. d.created_at ≤ e.created_at) c latest l.one_each m
          (Exists-weaken (Supersedes d)
            (λ e. (e.user_id ≡ c.user_id) × (d.created_at ≤ e.created_at)) latest
            (λ e p. (p.0 ∙ same, p.1)) found))
      l.newest

abbrev pub Stands : List Confirmation → Confirmation → Type 0
Stands cs c = Listed cs c × IsNewest cs c

All-pair :
    (P Q : Confirmation → Type 0) (l : List Confirmation)
    → All P l
    → All Q l
    → All (λ c. P c × Q c) l
All-pair P Q [] h k = tt
All-pair P Q (c ∷ l) (hc, h) (kc, k) = ((hc, kc), All-pair P Q l h k)

latest-Stands : (cs latest : List Confirmation) → IsLatest cs latest → All (Stands cs) latest
latest-Stands cs latest l = All-pair (Listed cs) (IsNewest cs) latest l.listed (
    All-weaken (Listed latest) (IsNewest cs) latest (latest-IsNewest cs latest l)
      (All-Listed_self latest))

pub Says-of_Stands :
    (q : Confirmation → Bool) (cs : List Confirmation) (c : Confirmation)
    → Stands cs c
    → q c ≡ true
    → Says q cs c.user_id
Says-of_Stands q cs c (m, n) h =
    Exists-weaken (λ d. d ≡ c) (λ d. (d.user_id ≡ c.user_id) × IsNewest cs d × (q d ≡ true)) cs
      (λ d same. rw same (refl, n, h)) m

Says-filter :
    (q : Confirmation → Bool) (cs l : List Confirmation)
    → All (Stands cs) l
    → All (Says q cs) (map user (filter q l))
Says-filter q cs [] h = tt
Says-filter q cs (c ∷ l) (hc, h) = elim (Bool-cases (q c)) [
  | inl yea ↦ rw yea (Says-of_Stands q cs c hc yea, Says-filter q cs l h)
  | inr nay ↦ rw nay (Says-filter q cs l h)
]

length-map-user : (l : List Confirmation) → length (map user l) ≡ length l
length-map-user [] = refl
length-map-user (c ∷ l) = ap suc (length-map-user l)

-- At least `n` different users say so.
abbrev pub Voters : (Confirmation → Bool) → List Confirmation → (ℕ → Type 0) → Type 0
Voters q cs enough = (us : List ℕ) × IsDistinct us × All (Says q cs) us × enough (length us)

pub voters :
    (q : Confirmation → Bool) (cs : List Confirmation) (enough : ℕ → Type 0)
    → enough (length (filter q (latest_by_user cs)))
    → Voters q cs enough
voters q cs enough h =
    let l = latest_by_user-IsLatest cs in
    (
      map user (filter q (latest_by_user cs)),
      IsDistinct-filter user q (latest_by_user cs) l.one_each,
      Says-filter q cs (latest_by_user cs) (latest-Stands cs (latest_by_user cs) l),
      rw (length-map-user (filter q (latest_by_user cs))) h,
    )

pub Exists-elim {ℓ} :
    {T : Type ℓ} (P : Confirmation → Type 0) (l : List Confirmation)
    → ((c : Confirmation) → P c → T)
    → Exists P l
    → T
Exists-elim P [] f h = absurd h
Exists-elim P (c ∷ l) f (inl h) = f c h
Exists-elim P (c ∷ l) f (inr h) = Exists-elim P l f h

-- An entry of the map that passes a test stands for a newest confirmation that passes it.
pub standing :
    (q : Confirmation → Bool) (cs : List Confirmation)
    → any q (latest_by_user cs) ≡ true
    → Exists (λ c. Stands cs c × (q c ≡ true)) (latest_by_user cs)
standing q cs h =
    All-Exists (Stands cs) (λ c. q c ≡ true) (latest_by_user cs)
      (latest-Stands cs (latest_by_user cs) (latest_by_user-IsLatest cs))
      (any→Exists q (latest_by_user cs) h)

pub by_user_both :
    (q : Confirmation → Bool) (k : ℕ) (c : Confirmation)
    → (by_user k c && q c) ≡ true
    → (c.user_id ≡ k) × (q c ≡ true)
by_user_both q k c h = ground arith
