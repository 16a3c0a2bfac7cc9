-- ===== src/Subscriptions/Service/Pages/Order.antt =====
-- The order of a topic's active subscriptions, and what a cursor leaves of them.
use substy.Base.{
  ℕ, ◌≡◌, refl, ◌∙◌, sym, ap, arith, true, false, ◌&&◌, Option, none, some, List, [], ◌∷◌, take,
  drop, last_of, All-mono, All-take, All-last_of, All-rows_where_self, rows_where, UniqueKeys,
  sort_by, IsSorted, AreComparable, AreComparable-rows_where, IsSorted-rows_where,
  rows_where-sort_by, rows_where-rows_where, rows_where-stronger, rows_where-last_of,
}
use substy.Subscriptions.Model.{SubscriptionRow, Db}
use substy.Subscriptions.Repository.{active_in, after_cursor, subscriber_before}

-- The order of the listing is a strict one.
pub before_trans :
    (x y z : SubscriptionRow)
    → subscriber_before x y ≡ true
    → subscriber_before y z ≡ true
    → subscriber_before x z ≡ true
before_trans x y z h k = ground arith

pub before_irrefl : (x : SubscriptionRow) → subscriber_before x x ≡ false
before_irrefl x = ground arith

unique-AreComparable :
    (xs : List SubscriptionRow)
    → UniqueKeys (λ (x : SubscriptionRow). x.id) xs
    → AreComparable subscriber_before xs
unique-AreComparable [] h = tt
unique-AreComparable (x ∷ xs) h =
    (All-mono _ _ xs (λ y differs behind. ground arith) h.0, unique-AreComparable xs h.1)

-- All the rows that the listing is about, in its order.
abbrev pub active_sorted : ℕ → Db → List SubscriptionRow
active_sorted topic_id d =
    sort_by subscriber_before (rows_where (active_in topic_id) d.subscriptions)

-- What is left behind a cursor.
abbrev pub left : Option (ℕ × ℕ) → List SubscriptionRow → List SubscriptionRow
left c rows = rows_where (after_cursor c) rows

pub active-AreComparable :
    (topic_id : ℕ) (d : Db)
    → UniqueKeys (λ (x : SubscriptionRow). x.id) d.subscriptions
    → AreComparable subscriber_before (rows_where (active_in topic_id) d.subscriptions)
active-AreComparable topic_id d u =
    AreComparable-rows_where subscriber_before (active_in topic_id) d.subscriptions
      (unique-AreComparable d.subscriptions u)

pub selected :
    (topic_id : ℕ) (c : Option (ℕ × ℕ)) (d : Db)
    → UniqueKeys (λ (x : SubscriptionRow). x.id) d.subscriptions
    → sort_by subscriber_before
        (rows_where (λ r. active_in topic_id r && after_cursor c r) d.subscriptions)
      ≡ left c (active_sorted topic_id d)
selected topic_id c d u =
    ap (sort_by subscriber_before)
      (sym (rows_where-rows_where (active_in topic_id) (after_cursor c) d.subscriptions))
    ∙ sym (
        rows_where-sort_by subscriber_before before_trans (after_cursor c)
          (rows_where (active_in topic_id) d.subscriptions) (active-AreComparable topic_id d u))

-- The cursor of a page's last row leaves what comes behind the page.
pub advance :
    (c : Option (ℕ × ℕ)) (n : ℕ) (rows : List SubscriptionRow) (last : SubscriptionRow)
    → IsSorted subscriber_before rows
    → last_of (take n (left c rows)) ≡ some last
    → left (some (last.user_id, last.id)) rows ≡ drop n (left c rows)
advance c n rows last h e =
    let behind : after_cursor c last ≡ true =
      All-last_of (λ r. after_cursor c r ≡ true) (take n (left c rows)) last
        (All-take (λ r. after_cursor c r ≡ true) n (left c rows)
          (All-rows_where_self (after_cursor c) rows))
        e in
    sym (
      rows_where-stronger (after_cursor c) (subscriber_before last) rows
        (λ r k. further c r behind k))
    ∙ rows_where-last_of subscriber_before before_trans before_irrefl n (left c rows) last
        (IsSorted-rows_where subscriber_before (after_cursor c) rows h) e
  where
    further :
        (d : Option (ℕ × ℕ)) (r : SubscriptionRow)
        → after_cursor d last ≡ true
        → subscriber_before last r ≡ true
        → after_cursor d r ≡ true
    further none r k l = refl
    further (some (user_id, id)) r k l = ground arith
