-- ===== src/Delivery/Fanout/Paging.antt =====
-- The pages and the subscribers on them (services/subscriptions_fetcher.py).
use substy.Base.{
  ℕ, zero, suc, ◌≤◌, ◌≡◌, refl, Option, List, [], ◌∷◌, ◌++◌, arith, pure, ◌>>=◌, >>=_cong,
  >>=_assoc, >>=_pure, sym, ◌∙◌, String,
}
use substy.Delivery.Model.{Store}
use substy.Delivery.Metrics.{Counters}
use substy.Delivery.Fanout.{
  NotificationCreatedEvent, SubscriberItem, FanoutService, fan_subscriber, fan_subscribers,
  fan_pages,
}
use substy.Delivery.Fanout.Wanted.{Pages, last_page, more_pages}
use substy.Delivery.Fanout.Refines.{after_page, fan_pages-page}

Pages-pos :
    {svc : FanoutService} {topic_id n : ℕ} {cursor : Option String} {subs : List SubscriberItem}
    → Pages svc topic_id n cursor subs
    → ¬ (n ≤ 0)
Pages-pos (last_page page fetched final) h = omega arith
Pages-pos (more_pages page fetched more p) h = omega arith

module _ (svc : FanoutService) (event : NotificationCreatedEvent) where
  fan_subscribers-append :
      (xs ys : List SubscriberItem) (counts : Counters) (s : Store)
      → fan_subscribers svc event (xs ++ ys) counts s
        ≡ (fan_subscribers svc event xs counts >>= fan_subscribers svc event ys) s
  unfolding fan_subscribers
  fan_subscribers-append [] ys counts s = refl
  fan_subscribers-append (x ∷ xs) ys counts s =
      >>=_cong (fan_subscriber svc event x counts) (λ c. fan_subscribers svc event (xs ++ ys) c)
        (λ c. fan_subscribers svc event xs c >>= fan_subscribers svc event ys) s
        (λ c t. fan_subscribers-append xs ys c t)
      ∙ sym (
          >>=_assoc (fan_subscriber svc event x counts) (fan_subscribers svc event xs)
            (fan_subscribers svc event ys) s)

  -- With fuel for its pages, if they end, the loop over the pages is the loop over all their
  -- subscribers: neither the size of the pages nor the fuel shows.
  pub fan_pages-eq-fan_subscribers :
      (n fuel : ℕ) (cursor : Option String) (subs : List SubscriberItem) (counts : Counters)
      (s : Store)
      → Pages svc event.topic_id n cursor subs
      → n ≤ fuel
      → fan_pages svc event fuel cursor counts s ≡ fan_subscribers svc event subs counts s
  fan_pages-eq-fan_subscribers n zero cursor subs counts s p h = absurd (Pages-pos p h)
  fan_pages-eq-fan_subscribers n (suc fuel) cursor subs counts s (last_page page fetched final) h =
      fan_pages-page svc event fuel cursor page counts s fetched
      ∙ >>=_cong (fan_subscribers svc event page.items counts) (after_page svc event fuel page) pure
          s (λ c t. rw final)
      ∙ >>=_pure (fan_subscribers svc event page.items counts) s
  fan_pages-eq-fan_subscribers n (suc fuel) cursor subs counts s
        (more_pages {n = m} {rest = others} page fetched more p) h =
      fan_pages-page svc event fuel cursor page counts s fetched
      ∙ >>=_cong (fan_subscribers svc event page.items counts) (after_page svc event fuel page)
          (fan_subscribers svc event others) s
          (λ c t.
            rw more
              (fan_pages-eq-fan_subscribers m fuel page.next_cursor others c t p (omega arith)))
      ∙ sym (fan_subscribers-append page.items others counts s)
