-- ===== src/Auth/Service/Rotation/Rows.antt =====
-- The rows of the sessions' table that have a token's hash, and what the statements of
-- repositories/sessions.py do to them.
use substy.Base.{
  ℕ, true, false, ◌≡◌, refl, arith, Option, Option-cases, none, some, List, [], ◌∷◌, ◌++◌, String,
  str_eq, if◌then◌else◌, Bool-cases, inl, inr, All, find_row, update_where, ok, >>=-ok,
}
use substy.Auth.Model.{Session, Db, Store, Library, Env}
use substy.Auth.Sessions
use substy.Auth.Sessions.{is_live, open_hash, open_id, revoked, is_open}

-- Only the session `i` has the hash.
abbrev pub OnlyIn : String → ℕ → Db → Type 0
OnlyIn h i d = All (λ r. str_eq r.token_hash h ≡ true → r.id ≡ i) d.sessions

-- No open session has the hash.
abbrev pub IsSpent : String → Db → Type 0
IsSpent h d = All (λ r. open_hash h r ≡ false) d.sessions

pub spent_found :
    (env : Env) (h : String) (xs : List Session)
    → All (λ r. open_hash h r ≡ false) xs
    → find_row (is_live env h) xs ≡ none
spent_found env h [] k = refl
spent_found env h (r ∷ rs) k = ground (arith, k.0, spent_found env h rs k.1)

pub revoke_id-IsSpent :
    (env : Env) (h : String) (i : ℕ) (xs : List Session)
    → All (λ r. str_eq r.token_hash h ≡ true → r.id ≡ i) xs
    → All (λ r. open_hash h r ≡ false) (update_where (open_id i) (revoked env) xs)
revoke_id-IsSpent env h i [] k = tt
revoke_id-IsSpent env h i (r ∷ rs) k = (head_spent, revoke_id-IsSpent env h i rs k.1)
  where
    head_spent : open_hash h (if open_id i r then revoked env r else r) ≡ false
    head_spent = elim (Bool-cases (str_eq r.token_hash h)) [
      | inl hit ↦ let same : r.id ≡ i = k.0 hit in ground arith
      | inr miss ↦ ground arith
    ]

pub revoke_hash-IsSpent :
    (env : Env) (h : String) (xs : List Session)
    → All (λ r. open_hash h r ≡ false) (update_where (open_hash h) (revoked env) xs)
revoke_hash-IsSpent env h [] = tt
revoke_hash-IsSpent env h (r ∷ rs) = (ground arith, revoke_hash-IsSpent env h rs)

module _ (lib : Library) where
  insert-appends :
      (r row : Session) (s t : Store)
      → Sessions.insert r s ≡ (ok row, t)
      → (t.db.sessions ≡ s.db.sessions ++ r ∷ []) × (t.db.users ≡ s.db.users) × (t.tx ≡ s.tx)
  unfolding Sessions.insert
  insert-appends r row s t h = ground arith

  inet_same : (ip a : Option String) (s t : Store) → Sessions.inet lib ip s ≡ (ok a, t) → s ≡ t
  inet_same none a s t h = cc
  inet_same (some ip) a s t h = elim (Option-cases (lib.inet_text ip)) [
    | inl refused ↦ ground arith
    | inr (x, e) ↦ ground arith
  ]

  -- A session that was created is the last row of its table, with the hash given.
  pub create-appends :
      (env : Env) (i user_id : ℕ) (hash : String) (ua ip : Option String) (at : ℕ) (row : Session)
      (s t : Store)
      → Sessions.create lib env i user_id hash ua ip at s ≡ (ok row, t)
      → (r : Session) × (t.db.sessions ≡ s.db.sessions ++ r ∷ [])
        × (r.token_hash ≡ hash)
        × (t.db.users ≡ s.db.users)
        × (t.tx ≡ s.tx)
  unfolding Sessions.create
  create-appends env i user_id hash ua ip at row s t h =
      let (address, s', e, k) =
        >>=-ok (Sessions.inet lib ip)
          (λ address. Sessions.insert (Sessions.new_row env i user_id hash ua address at)) s h in
      let (l, m, n) = insert-appends _ row s' t k in
      (
        Sessions.new_row env i user_id hash ua address at,
        rw (inet_same ip address s s' e) l,
        refl,
        rw (inet_same ip address s s' e) m,
        rw (inet_same ip address s s' e) n,
      )
