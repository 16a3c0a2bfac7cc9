-- ===== src/Subscriptions/Service/Pages.antt =====
-- The pages of a topic's subscribers, one after the other: `iter_subscribers` of
-- services/delivery/delivery_service/services/subscriptions_fetcher.py over
-- `list_internal_subscribers` of services/subscriptions.py, before the records are printed as JSON.
mod Order
use substy.Base.{
  ℕ, zero, suc, ◌+◌, ◌-◌, ◌≤◌, ◌<◌, min, ◌≡◌, ◌≢◌, refl, ◌∙◌, sym, ap, arith, Bool, true, false,
  not, ◌&&◌, ◌||◌, ◌==◌, Option, none, some, List, [], ◌∷◌, ◌++◌, String, truthy, truthy?, map,
  take, drop, length, length-take, last_of, All, All-mono, All-take, All-last_of, All-rows_where,
  All-rows_where_self, ltb, ltb→lt, if◌then◌else◌, Bool-cases, inl, inr, find_row, rows_where,
  UniqueKeys, sort_by, IsSorted, AreComparable, AreComparable-rows_where, IsSorted-rows_where,
  sort_by-IsSorted, rows_where-sort_by, rows_where-rows_where, rows_where-stronger, rows_where-All,
  rows_where-last_of, length-sort_by, length-drop, take-append-drop, take_all, length-map, take-map,
  last_of-map, map-append, take-take, last_of-some, Outcome, ok, err, out_of_fuel, Tx, no_tx, pure,
  raise, lift, ◌>>=◌,
}
use substy.Subscriptions.Model.{
  TopicRecord, SubscriptionRow, SubscriberRecord, Db, Store, Call, Env,
}
use substy.Subscriptions.Repository.{
  topic_id_is, pair_less, active_in, after_cursor, subscriber_before, subscriber_of,
  list_active_subscribers,
}
use substy.Pagination.{
  Codec, object, decode_cursor, cursor_pair, field_of, subscribers_cursor, cut_page,
}
use substy.Subscriptions.Service.{list_internal_subscribers, get_topic_by_id}
use substy.Subscriptions.Service.Pages.Order.{
  before_trans, before_irrefl, active_sorted, left, active-AreComparable, selected, advance,
}

module _ (env : Env) (codec : Codec) (topic_id limit : ℕ) where
  -- The generator's loop, over at most as many pages as `fuel`.
  unfoldable pub iter_subscribers : ℕ → Option String → Call (List SubscriberRecord)
  unfolding list_internal_subscribers
  iter_subscribers zero cursor = raise out_of_fuel
  iter_subscribers (suc fuel) cursor = do
    (rows, next_cursor) ← list_internal_subscribers env codec topic_id limit cursor
    if not (truthy? next_cursor)
        then pure rows
        else (do more ← iter_subscribers fuel next_cursor; pure (rows ++ more))

-- The codec reads the cursors that it wrote, and writes no empty one.
abbrev pub ReadsBack : Codec → Type 0
ReadsBack codec =
    ((user_id id : ℕ)
      → codec.load (subscribers_cursor codec user_id id)
        ≡ object (("user_id", codec.uuid_text user_id) ∷ ("id", codec.uuid_text id) ∷ []))
    × ((n : ℕ) → codec.parse_uuid (codec.uuid_text n) ≡ some n)
    × ((user_id id : ℕ) → truthy (subscribers_cursor codec user_id id) ≡ true)

abbrev cursor_text : Codec → Option (ℕ × ℕ) → Option String
cursor_text codec none = none
cursor_text codec (some (user_id, id)) = some (subscribers_cursor codec user_id id)

module _ (env : Env) (codec : Codec) (topic_id limit : ℕ) where
  abbrev cursor_of : SubscriberRecord → String
  cursor_of r = subscribers_cursor codec r.user_id r.subscription_id

  page :
      (c : Option (ℕ × ℕ)) (s : Store) (topic : TopicRecord)
      → ReadsBack codec
      → s.tx ≡ no_tx
      → ((d : Db) → env.others d ≡ d)
      → find_row (topic_id_is topic_id) s.db.topics ≡ some topic
      → UniqueKeys (λ (x : SubscriptionRow). x.id) s.db.subscriptions
      → list_internal_subscribers env codec topic_id limit (cursor_text codec c) s ≡ (
        ok (
            cut_page cursor_of limit
              (map (subscriber_of s.db) (take (limit + 1) (left c (active_sorted topic_id s.db))))),
        s,
      )
  unfolding list_internal_subscribers list_active_subscribers get_topic_by_id decode_cursor
      cursor_pair field_of
  page none s topic codec_reads outside quiet found u =
      ground (arith, outside, found, quiet s.db, selected topic_id none s.db u)
  page (some (user_id, id)) s topic codec_reads outside quiet found u = ground (
    arith,
    outside,
    found,
    quiet s.db,
    selected topic_id (some (user_id, id)) s.db u,
    codec_reads.0 user_id id,
    codec_reads.1 user_id,
    codec_reads.1 id,
    codec_reads.2 user_id id,
  )

  last_page :
      (d : Db) (rows : List SubscriptionRow)
      → length rows ≤ limit
      → cut_page cursor_of limit (map (subscriber_of d) (take (limit + 1) rows))
        ≡ (map (subscriber_of d) rows, none)
  last_page d rows h =
      let whole : take (limit + 1) rows ≡ rows = take_all (limit + 1) rows (omega arith) in
      rw whole (ground (arith, length-map (subscriber_of d) rows))

  full_page :
      (d : Db) (rows : List SubscriptionRow) (last : SubscriptionRow)
      → limit < length rows
      → last_of (take limit rows) ≡ some last
      → cut_page cursor_of limit (map (subscriber_of d) (take (limit + 1) rows)) ≡ (
        map (subscriber_of d) (take limit rows),
        some (subscribers_cursor codec last.user_id last.id),
      )
  full_page d rows last h e =
      let cut : take limit (map (subscriber_of d) (take (limit + 1) rows))
          ≡ map (subscriber_of d) (take limit rows) =
        take-map (subscriber_of d) limit (take (limit + 1) rows)
        ∙ ap (map (subscriber_of d)) (take-take limit (limit + 1) rows (omega arith)) in
      ground (
        arith,
        cut,
        length-map (subscriber_of d) (take (limit + 1) rows),
        length-take (limit + 1) rows,
        last_of-map (subscriber_of d) (take limit rows) last e,
      )

  iter_from :
      (fuel : ℕ) (c : Option (ℕ × ℕ)) (s : Store) (topic : TopicRecord)
      → ReadsBack codec
      → 0 < limit
      → s.tx ≡ no_tx
      → ((d : Db) → env.others d ≡ d)
      → find_row (topic_id_is topic_id) s.db.topics ≡ some topic
      → UniqueKeys (λ (x : SubscriptionRow). x.id) s.db.subscriptions
      → length (left c (active_sorted topic_id s.db)) < fuel
      → iter_subscribers env codec topic_id limit fuel (cursor_text codec c) s
        ≡ (ok (map (subscriber_of s.db) (left c (active_sorted topic_id s.db))), s)
  unfolding iter_subscribers
  iter_from zero c s topic codec_reads some_rows outside quiet found u enough = absurd (omega arith)
  iter_from (suc fuel) c s topic codec_reads some_rows outside quiet found u enough =
      elim (Bool-cases (ltb limit (length (left c (active_sorted topic_id s.db))))) [
        | inl longer ↦
            let rows = left c (active_sorted topic_id s.db) in
            let over : limit < length rows = ltb→lt limit (length rows) longer in
            let (last, e) = last_of-some limit rows some_rows (omega arith) in
            let behind : left (some (last.user_id, last.id)) (active_sorted topic_id s.db)
                ≡ drop limit rows =
              advance c limit (active_sorted topic_id s.db) last
                (sort_by-IsSorted subscriber_before before_trans _
                  (active-AreComparable topic_id s.db u))
                e in
            let rest =
              iter_from fuel (some (last.user_id, last.id)) s topic codec_reads some_rows outside
                quiet found u (rw behind (omega (arith, length-drop limit rows))) in
            let glue : map (subscriber_of s.db) (take limit rows)
                  ++ map (subscriber_of s.db)
                      (left (some (last.user_id, last.id)) (active_sorted topic_id s.db))
                ≡ map (subscriber_of s.db) rows =
              rw behind (
                sym (map-append (subscriber_of s.db) (take limit rows) (drop limit rows))
                ∙ ap (map (subscriber_of s.db)) (take-append-drop limit rows)) in
            ground (
              arith,
              page c s topic codec_reads outside quiet found u,
              full_page s.db rows last over e,
              codec_reads.2 last.user_id last.id,
              rest,
              glue,
            )
        | inr shorter ↦
            let is_last =
              last_page s.db (left c (active_sorted topic_id s.db)) (ground (arith, shorter)) in
            ground (arith, page c s topic codec_reads outside quiet found u, is_last)
      ]

  -- The pages of a topic's subscribers, fetched one after the other from the first, are together the
  -- topic's active subscriptions in the order of user and subscription, each once, whatever the size
  -- of a page is: this holds for one row a page at least, a topic that is there, rows that nobody
  -- changes meanwhile, unique ids, and a codec that reads back its cursors. The loop ends within one
  -- page more than there are such subscriptions.
  pub iter_subscribers_lem :
      (fuel : ℕ) (s : Store) (topic : TopicRecord)
      → ReadsBack codec
      → 0 < limit
      → s.tx ≡ no_tx
      → ((d : Db) → env.others d ≡ d)
      → find_row (topic_id_is topic_id) s.db.topics ≡ some topic
      → UniqueKeys (λ (x : SubscriptionRow). x.id) s.db.subscriptions
      → length (rows_where (active_in topic_id) s.db.subscriptions) < fuel
      → iter_subscribers env codec topic_id limit fuel none s ≡ (
        ok (
            map
              (subscriber_of s.db)
              (sort_by subscriber_before (rows_where (active_in topic_id) s.db.subscriptions))),
        s,
      )
  iter_subscribers_lem fuel s topic codec_reads some_rows outside quiet found u enough =
      let all : left none (active_sorted topic_id s.db) ≡ active_sorted topic_id s.db =
        rows_where-All (after_cursor none) (active_sorted topic_id s.db) (always _) in
      let sorted =
        length-sort_by subscriber_before (rows_where (active_in topic_id) s.db.subscriptions) in
      iter_from fuel none s topic codec_reads some_rows outside quiet found u
        (rw all (rw sorted enough))
      ∙ rw all refl
    where
      always : (rows : List SubscriptionRow) → All (λ r. after_cursor none r ≡ true) rows
      always [] = tt
      always (r ∷ rows) = (refl, always rows)
