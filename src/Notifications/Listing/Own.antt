-- ===== src/Notifications/Listing/Own.antt =====
-- What a page of a user's notifications holds (services/notifications.py, `list_my_notifications`).
use mathlib.Core.Path.{subst}
use substy.Base.{
  sym, ap, ◌∙◌, ℕ, ◌+◌, ◌≤◌, ◌≡◌, inl, inr, true, Option, List, String, All, All-mono, All-take,
  All-sort_by, All-rows_where_self, arith, Bool-cases, ltb, length, length-take, take, rows_where,
  sort_by, ok, pure, lift, ◌>>=◌, >>=-ok, answer_of,
}
use substy.Pagination.{Codec, decode_cursor, cursor_pair, notifications_cursor, cut_page}
use substy.Notifications.Model.{NotificationRecord, Store}
use substy.Notifications.Listing.{
  is_wanted, status_is, topic_is, pair_less, check_status, list_by_user, list_my_notifications,
}

module _ (user_id : ℕ) (status : Option String) (topic_id : Option ℕ) where
  -- The user's own, of the wanted status and topic.
  abbrev pub IsOwn : NotificationRecord → Type 0
  IsOwn n = (n.created_by ≡ user_id) × (status_is status n ≡ true) × (topic_is topic_id n ≡ true)

  list_by_user-IsOwn :
      (limit : ℕ) (cursor : Option (ℕ × ℕ)) (rows : List NotificationRecord) (s t : Store)
      → list_by_user user_id limit cursor status topic_id s ≡ (ok rows, t)
      → All IsOwn rows × (s ≡ t)
  unfolding list_by_user
  list_by_user-IsOwn limit cursor rows s t h =
      let wanted = is_wanted user_id cursor status topic_id in
      let page : rows
          ≡ take limit (
              sort_by (λ a b. pair_less b.created_at b.id a.created_at a.id)
                (rows_where wanted s.db.notifications)) =
        ground arith in
      (
        rw page (
            All-take IsOwn limit _ (
              All-sort_by IsOwn _ (rows_where wanted s.db.notifications) (
                All-mono (λ n. wanted n ≡ true) IsOwn _ (λ n k. ground arith)
                  (All-rows_where_self wanted s.db.notifications)))),
        ground arith,
      )

  cut_page-IsOwn :
      (cursor_of : NotificationRecord → String) (limit : ℕ) (rows : List NotificationRecord)
      → All IsOwn rows
      → All IsOwn (cut_page cursor_of limit rows).0
        × (length (cut_page cursor_of limit rows).0 ≤ limit)
  cut_page-IsOwn cursor_of limit rows h = elim (Bool-cases (ltb limit (length rows))) [
    | inl more ↦ rw more (All-take IsOwn limit rows h, omega (arith, length-take limit rows))
    | inr last ↦ rw last (h, ground arith)
  ]

  -- A listing that returns shows the user's own notifications only, of the status and topic asked
  -- for if they are, at most as many as the limit, and changes nothing.
  pub list_my_notifications_lem :
      (codec : Codec) (limit : ℕ) (cursor next : Option String) (rows : List NotificationRecord)
      (s t : Store)
      → list_my_notifications codec user_id limit cursor status topic_id s ≡ (ok (rows, next), t)
      → All IsOwn rows × (length rows ≤ limit) × (t ≡ s)
  unfolding list_my_notifications
  list_my_notifications_lem codec limit cursor next rows s t h =
      let cut = λ (rs : List NotificationRecord). pure (
        cut_page (λ (n : NotificationRecord). notifications_cursor codec n.created_at n.id) limit
          rs) in
      let listing =
        λ (c : Option (ℕ × ℕ)). list_by_user user_id (limit + 1) c status topic_id >>= cut in
      let paired = λ (f : List (String × String)).
        lift (cursor_pair codec "created_at" codec.parse_time f) >>= listing in
      let decoded = λ (u : Unit {0}). lift (decode_cursor codec cursor) >>= paired in
      let (u, s1, e1, h1) = >>=-ok (lift (check_status status)) decoded s h in
      let (f, s2, e2, h2) = >>=-ok (lift (decode_cursor codec cursor)) paired s1 h1 in
      let (c, s3, e3, h3) =
        >>=-ok (lift (cursor_pair codec "created_at" codec.parse_time f)) listing s2 h2 in
      let (rs, s4, e4, h4) =
        >>=-ok (list_by_user user_id (limit + 1) c status topic_id) cut s3 h3 in
      let (own, same) = list_by_user-IsOwn (limit + 1) c rs s3 s4 e4 in
      let (page, last) = answer_of h4 in
      let (all_own, short) =
        cut_page-IsOwn (λ n. notifications_cursor codec n.created_at n.id) limit rs own in
      (
        subst (λ r. All IsOwn r.0) page all_own,
        subst (λ r. length r.0 ≤ limit) page short,
        sym (ap (λ x. x.1) e1 ∙ ap (λ x. x.1) e2 ∙ ap (λ x. x.1) e3 ∙ same ∙ last),
      )
