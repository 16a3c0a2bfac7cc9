-- ===== src/Subscriptions/Service/Quiet.antt =====
-- The two ends of the quiet hours (services/subscriptions.py).
use mathlib.Core.Path.{subst}
use substy.Base.{
  sym, Error, raise, ℕ, ◌≡◌, inl, inr, Bool, false, Option, none, some, List, [], ◌∷◌, String, All,
  All-append, All-update_where, arith, Bool-cases, has_row, if◌then◌else◌, Outcome, lift,
  transaction, ◌>>=◌, ◌>>◌, Keeps, >>=-Keeps, statement-Keeps, transaction-Keeps,
}
use substy.Subscriptions.Model.{
  PreferencesRow, SubscriptionRecord, SubscriptionPreferencesPatchRequest, Db, Store, Env,
}
use substy.Subscriptions.Repository.{
  preferences_of, set_preferences, upsert_preferences, update_active, get_by_id_for_user,
}
use substy.Subscriptions.Service.{
  meanwhile, required, half_set, Target, target, target_active, write_active, write_preferences,
  write_update, update_subscription,
}

-- Both ends of the quiet hours are set, or neither is.
abbrev pub IsPaired : PreferencesRow → Type 0
IsPaired p = half_set p.quiet_hours_start p.quiet_hours_end ≡ false

abbrev pub ArePaired : Db → Type 0
ArePaired d = All IsPaired d.preferences

set_preferences-IsPaired :
    (p : PreferencesRow) (ps : List PreferencesRow)
    → IsPaired p
    → All IsPaired ps
    → All IsPaired (set_preferences p ps)
set_preferences-IsPaired p ps h k =
    elim (Bool-cases (has_row (preferences_of p.subscription_id) ps)) [
      | inl there ↦ rw there (
          All-update_where IsPaired (preferences_of p.subscription_id) (λ _. p) ps (λ a hit old. h)
            k)
      | inr new ↦ rw new (All-append IsPaired ps (p ∷ []) k (h, tt))
    ]

-- A call that writes no preferences.
untouched-Keeps :
    {A : Type 0} (m : Store → Outcome A × Store)
    → ((s : Store) → (m s).1.db.preferences ≡ s.db.preferences)
    → Keeps ArePaired m
untouched-Keeps m same s k = subst (All IsPaired) (sym (same s)) k

fetch-Keeps : (i user_id : ℕ) → Keeps ArePaired (get_by_id_for_user i user_id)
unfolding get_by_id_for_user
fetch-Keeps i user_id = untouched-Keeps (get_by_id_for_user i user_id) (λ s. ground arith)

required-Keeps :
    {A : Type 0} (message : String) (found : Option A) → Keeps ArePaired (required message found)
required-Keeps message none s k = k
required-Keeps message (some a) s k = k

module _ (env : Env) where
  upsert_preferences-Keeps :
      (i : ℕ) (channels : List String) (start end : Option ℕ) (timezone : String)
      → half_set start end ≡ false
      → Keeps ArePaired (upsert_preferences env i channels start end timezone)
  unfolding upsert_preferences
  upsert_preferences-Keeps i channels start end timezone h = statement-Keeps ArePaired _ (λ s k.
      ground (
        arith,
        set_preferences-IsPaired
            (record {
              subscription_id = i;
              channels = channels;
              quiet_hours_start = start;
              quiet_hours_end = end;
              timezone = timezone;
              updated_at = env.db_now;
            })
            s.db.preferences h k,
      ))

  module _ (others_paired : (d : Db) → ArePaired d → ArePaired (env.others d)) where
    meanwhile-Keeps : Keeps ArePaired (meanwhile env)
    meanwhile-Keeps s k = others_paired s.db k

    write_active-Keeps :
        (user_id i : ℕ) (old new : Bool) → Keeps ArePaired (write_active env user_id i old new)
    unfolding update_active get_by_id_for_user
    write_active-Keeps user_id i old new =
        untouched-Keeps (write_active env user_id i old new) (λ s. ground arith)

    write_preferences-Keeps :
        (i : ℕ) (t : Target) (patch : Option SubscriptionPreferencesPatchRequest)
        → half_set t.quiet_start t.quiet_end ≡ false
        → Keeps ArePaired (write_preferences env i t patch)
    write_preferences-Keeps i t none h s k = k
    write_preferences-Keeps i t (some patch) h s k =
        upsert_preferences-Keeps i t.channels t.quiet_start t.quiet_end t.timezone h s k

    write_update-Keeps :
        (user_id i : ℕ) (old new : Bool) (t : Target)
        (patch : Option SubscriptionPreferencesPatchRequest)
        → half_set t.quiet_start t.quiet_end ≡ false
        → Keeps ArePaired (write_update env user_id i old new t patch)
    unfolding write_update
    write_update-Keeps user_id i old new t patch h =
        let fetching = λ (u : Unit {0}). get_by_id_for_user i user_id in
        let preferring = λ (u : Unit {0}). write_preferences env i t patch >>= fetching in
        let body = write_active env user_id i old new >>= preferring in
        >>=-Keeps ArePaired (transaction body) (required "Subscription not found")
          (transaction-Keeps ArePaired body (
            >>=-Keeps ArePaired (write_active env user_id i old new) preferring
              (write_active-Keeps user_id i old new)
              λ u.
                >>=-Keeps ArePaired (write_preferences env i t patch) fetching
                  (write_preferences-Keeps i t patch h) λ v. fetch-Keeps i user_id))
          (required-Keeps "Subscription not found")

    -- Updating a subscription keeps the quiet hours of all stored preferences paired, whatever the
    -- patch and whether the call returns or raises, if what other sessions commit in between does:
    -- both ends are stored, or neither.
    pub update_subscription-ArePaired :
        (user_id i : ℕ) (is_active : Option Bool)
        (patch : Option SubscriptionPreferencesPatchRequest) (s : Store)
        → ArePaired s.db
        → ArePaired (update_subscription env user_id i is_active patch s).1.db
    unfolding update_subscription
    update_subscription-ArePaired user_id i is_active patch =
        let writing = λ (existing : SubscriptionRecord) (t : Target).
          write_update env user_id i existing.is_active (target_active existing.is_active is_active)
            t patch in
        let guarded = λ (existing : SubscriptionRecord) (t : Target).
          if half_set t.quiet_start t.quiet_end
          then raise (Error.validation_error "quiet hours must include both start and end")
          else (meanwhile env >> writing existing t) in
        let aiming = λ (existing : SubscriptionRecord).
          lift (target env existing.preferences patch) >>= guarded existing in
        let checking = λ (found : Option SubscriptionRecord).
          required "Subscription not found" found >>= aiming in
        >>=-Keeps ArePaired (get_by_id_for_user i user_id) checking (fetch-Keeps i user_id) λ found.
          >>=-Keeps ArePaired (required "Subscription not found" found) aiming
            (required-Keeps "Subscription not found" found)
            λ existing.
              >>=-Keeps ArePaired (lift (target env existing.preferences patch)) (guarded existing)
                (λ s k. k)
                λ t s k. elim (Bool-cases (half_set t.quiet_start t.quiet_end)) [
                  | inl half ↦ rw half k
                  | inr whole ↦ rw whole (
                      >>=-Keeps ArePaired (meanwhile env) (λ _. writing existing t) meanwhile-Keeps
                        (λ u.
                          write_update-Keeps user_id i existing.is_active
                            (target_active existing.is_active is_active) t patch whole)
                        s k)
                ]
