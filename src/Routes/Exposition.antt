-- ===== src/Routes/Exposition.antt =====
-- The text that `metrics` answers with, map-server/src/routes.rs.
pub mod Reading
use Prim.Native.Char.{Char, code}
use kwaai_net_map.Prelude.{String, Bool, List, [], ◌∷◌, eqb}
use kwaai_net_map.Prelude.F64.{F64}
use kwaai_net_map.Text.{append}
use kwaai_net_map.Routes.{Metrics}

abbrev pub newline : String
newline = "\n"

-- The arguments of the closure `gauge`.
pub record Gauge : Type 0 where
  pub name : String
  pub help : String
  pub value : F64

unfoldable pub gauges : Metrics → List Gauge
gauges m =
    record { name = "kwaainet_nodes"; help = "Servers seen in the last crawl."; value = m.nodes }
    ∷ record {
      name = "kwaainet_peers";
      help = "Distinct peers seen in the last crawl.";
      value = m.peers;
    }
    ∷ record {
      name = "kwaainet_tokens_per_second";
      help = "Aggregate announced throughput.";
      value = m.tokens_per_second;
    }
    ∷ record {
      name = "kwaainet_block_coverage_percent";
      help = "Block coverage of the largest model.";
      value = m.block_coverage_percent;
    }
    ∷ record {
      name = "kwaainet_blocks_covered";
      help = "Model blocks with at least one online server.";
      value = m.blocks_covered;
    }
    ∷ record { name = "kwaainet_models"; help = "Models registered in the DHT."; value = m.models }
    ∷ record {
      name = "kwaainet_bootstraps_online";
      help = "Reachable bootstrap peers.";
      value = m.bootstraps_online;
    }
    ∷ record {
      name = "kwaainet_bootstraps_total";
      help = "Configured bootstrap peers.";
      value = m.bootstraps_total;
    }
    ∷ record {
      name = "kwaainet_last_crawl_timestamp_seconds";
      help = "Unix time of the last completed crawl.";
      value = m.last_crawl_timestamp_seconds;
    }
    ∷ []

-- `writeln!`, before the rest of the text.
abbrev pub line : String → String → String
line s rest = append s (append newline rest)

-- `display` prints a float.
module _ (display : F64 → String) where
  -- The three lines of one gauge, before the rest of the text.
  unfoldable pub gauge : Gauge → String → String
  gauge g rest = line (append "# HELP " (append g.name (append " " g.help))) (
      line (append "# TYPE " (append g.name " gauge"))
        (line (append g.name (append " " (display g.value))) rest))

  unfoldable pub exposition : List Gauge → String
  unfolding gauge
  exposition [] = ""
  exposition (g ∷ gs) = gauge g (exposition gs)

  unfoldable pub metrics_text : Metrics → String
  unfolding gauges exposition
  metrics_text m = exposition (gauges m)
