-- ===== src/Tests/Scrapes.antt =====
-- The text of `metrics`, and the payloads of the live socket.
use kwaai_net_map.Prelude.{String, true, false, some, none, [], ◌∷◌, ◌≡◌, refl, All}
use kwaai_net_map.Prelude.F64.{F64}
use kwaai_net_map.Cache.{FloatOps, new}
use kwaai_net_map.Routes.{Metrics, handle_live}
use kwaai_net_map.Routes.Exposition.{gauges, gauge, metrics_text}
use kwaai_net_map.Routes.Exposition.Reading.{read_gauge, metrics_text-read_gauge}

abbrev display : F64 → String
display v = "12.5"

abbrev scraped : Metrics
scraped = record {
  nodes = 1;
  peers = 2;
  tokens_per_second = 3;
  block_coverage_percent = 4;
  blocks_covered = 5;
  models = 6;
  bootstraps_online = 7;
  bootstraps_total = 8;
  last_crawl_timestamp_seconds = 9;
}

metrics_text-read_gauge_example :
    All
      (λ g. read_gauge g.name (metrics_text display scraped) ≡ some (display g.value))
      (gauges scraped)
metrics_text-read_gauge_example = metrics_text-read_gauge display (λ v. refl) scraped

gauge_test :
    gauge display (record { name = "up"; help = "Is up."; value = 1 }) ""
    ≡ "# HELP up Is up.\n# TYPE up gauge\nup 12.5\n"
unfolding gauge
gauge_test = refl

abbrev ops : FloatOps
ops = record { of_usize = λ n. n; div = λ a b. a; mul = λ a b. a; sum = λ l. 0 }

-- The client is gone at the second tick.
live_test :
    handle_live ops (λ s. some "stats") none ((new 0, true) ∷ (new 0, false) ∷ (new 0, true) ∷ [])
    ≡ "stats" ∷ "stats" ∷ []
unfolding handle_live
live_test = refl
