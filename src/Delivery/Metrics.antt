-- ===== src/Delivery/Metrics.antt =====
-- core/metrics.py: the counters. Each method holds the lock for its whole update.
use substy.Base.{ℕ, ◌+◌, List, [], ◌∷◌, String, leb, str_eq, if◌then◌else◌}
use substy.Delivery.Model.{MetricsRegistry}

abbrev pub Counters : Type 0
Counters = List (String × ℕ)

-- `d[k] = d.get(k, 0) + value`
unfoldable pub add_count : String → ℕ → Counters → Counters
add_count k value [] = (k, value) ∷ []
add_count k value ((j, n) ∷ d) =
    if str_eq j k then (j, n + value) ∷ d else (j, n) ∷ add_count k value d

unfoldable pub inc_attempts_created : String → ℕ → MetricsRegistry → MetricsRegistry
unfolding add_count
inc_attempts_created channel value m = if leb value 0 then m else record m {
  delivery_attempts_created_total = add_count channel value m.delivery_attempts_created_total;
}

unfoldable pub inc_sent : MetricsRegistry → MetricsRegistry
inc_sent m = record m { delivery_sent_total = m.delivery_sent_total + 1 }

unfoldable pub inc_failed : MetricsRegistry → MetricsRegistry
inc_failed m = record m { delivery_failed_total = m.delivery_failed_total + 1 }

unfoldable pub inc_dead : MetricsRegistry → MetricsRegistry
inc_dead m = record m { delivery_dead_total = m.delivery_dead_total + 1 }

unfoldable pub inc_delayed_quiet_hours : String → MetricsRegistry → MetricsRegistry
unfolding add_count
inc_delayed_quiet_hours channel m = record m {
  delivery_delayed_quiet_hours_total = add_count channel 1 m.delivery_delayed_quiet_hours_total;
}

-- A delay is never negative here, so the clamp at 0 does nothing.
unfoldable pub observe_delivery_delay : ℕ → MetricsRegistry → MetricsRegistry
observe_delivery_delay delay m = record m {
  delivery_delay_sum = m.delivery_delay_sum + delay;
  delivery_delay_count = m.delivery_delay_count + 1;
}

unfoldable pub inc_jetstream_processed : MetricsRegistry → MetricsRegistry
inc_jetstream_processed m = record m {
  jetstream_messages_processed_total = m.jetstream_messages_processed_total + 1;
}
