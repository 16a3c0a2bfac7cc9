-- ===== src/Subscriptions/Topics.antt =====
-- services/topics.py and repositories/topics.py: TopicsService. `matches` stands for the two ILIKE
-- tests of a search text against a topic's key and name.
use substy.Base.{
  ℕ, ◌+◌, Bool, true, not, ◌&&◌, ◌||◌, Option, none, some, List, [], ◌∷◌, ◌++◌, String, member,
  str_eq, take, if◌then◌else◌, has_row, rows_where, sort_by, Outcome, ok, err, forbidden, conflict,
  postgres, statement, refuse, gets, pure, raise, lift, ◌>>=◌,
}
use substy.Subscriptions.Model.{TopicRecord, Store, Call, Env}
use substy.Subscriptions.Repository.{topic_id_is, pair_less}
use substy.Pagination.{Codec, decode_cursor, cursor_pair, topic_cursor, cut_page}
use substy.Subscriptions.Service.{uuid4, get_topic_by_id, required}

abbrev pub topic_key_is : String → TopicRecord → Bool
topic_key_is key t = str_eq t.key key

-- INSERT … RETURNING, with the primary key and the unique key (23505).
unfoldable pub insert_topic : TopicRecord → Call TopicRecord
insert_topic t = statement λ s.
    if has_row (topic_id_is t.id) s.db.topics || has_row (topic_key_is t.key) s.db.topics
    then refuse "23505" s
    else (ok t, record s { db = record s.db { topics = s.db.topics ++ t ∷ [] } })

-- `except asyncpg.PostgresError`
abbrev pub on_insert : Outcome TopicRecord × Store → Outcome TopicRecord × Store
on_insert (ok t, s) = (ok t, s)
on_insert (err (postgres sqlstate), s) =
    if str_eq sqlstate "23505"
    then (err (conflict "Topic key already exists"), s)
    else (err (postgres sqlstate), s)
on_insert (err e, s) = (err e, s)

unfoldable pub create : Env → ℕ → String → String → Option String → Call TopicRecord
unfolding insert_topic
create env topic_id key name description s = on_insert (
    insert_topic
      (record {
        id = topic_id;
        key = key;
        name = name;
        description = description;
        created_at = env.db_now;
      })
      s)

unfoldable pub create_topic : Env → List String → String → String → Option String → Call TopicRecord
unfolding create
create_topic env roles key name description =
    if not (member "admin" roles)
    then raise (forbidden "Forbidden")
    else (do topic_id ← uuid4 env; create env topic_id key name description)

unfoldable pub get_topic : ℕ → Call TopicRecord
get_topic topic_id = do topic ← get_topic_by_id topic_id; required "Topic not found" topic

module _ (matches : String → TopicRecord → Bool) where
  abbrev pub is_match : Option String → TopicRecord → Bool
  is_match none t = true
  is_match (some q) t = matches q t

  abbrev pub topic_before_cursor : Option (ℕ × ℕ) → TopicRecord → Bool
  topic_before_cursor none t = true
  topic_before_cursor (some (created_at, id)) t = pair_less t.created_at t.id created_at id

  -- ORDER BY created_at DESC, id DESC
  unfoldable pub topic_rows : Option String → ℕ → Option (ℕ × ℕ) → Call (List TopicRecord)
  topic_rows q limit cursor = statement (
      gets λ s. take limit (
        sort_by (λ a b. pair_less b.created_at b.id a.created_at a.id)
          (rows_where (λ t. is_match q t && topic_before_cursor cursor t) s.db.topics)))

  unfoldable pub list_topics :
      Codec → Option String → ℕ → Option String → Call (List TopicRecord × Option String)
  unfolding topic_rows
  list_topics codec q limit cursor = do
    cursor_data ← lift (decode_cursor codec cursor)
    pair ← lift (cursor_pair codec "created_at" codec.parse_time cursor_data)
    rows ← topic_rows q (limit + 1) pair
    pure (cut_page (λ (t : TopicRecord). topic_cursor codec t.created_at t.id) limit rows)
