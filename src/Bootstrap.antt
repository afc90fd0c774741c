-- ===== src/Bootstrap.antt =====
-- `BootstrapSet`: what a crawl has learned about each bootstrap, map-server/src/crawler.rs.
pub mod Laws
use kwaai_net_map.Prelude.{
  String, Bool, true, false, List, [], ◌∷◌, map, ◌==◌, ◌&&◌, any, select, if◌then◌else◌,
}
use kwaai_net_map.Text.{contains}

pub record BootstrapEntry : Type 0 where
  pub addr : String
  pub dialed : Bool
  pub answered : Bool

-- The set is its list of entries, in the order of the configuration.
abbrev pub BootstrapSet : Type 0
BootstrapSet = List BootstrapEntry

unfoldable pub new : List String → BootstrapSet
new addrs = map (λ addr. record { addr = addr; dialed = false; answered = false }) addrs

unfoldable pub has_dialable : BootstrapSet → Bool
has_dialable set = any (λ e. e.dialed) set

unfoldable pub live : BootstrapSet → List String
live set = map (λ e. e.addr) (select (λ e. e.dialed) set)

abbrev pub mark : Bool → BootstrapEntry → BootstrapEntry
mark answered e = if answered then record e { answered = true } else record e { dialed = false }

-- `record`: the first entry with the address is marked.
unfoldable pub record_answer : String → Bool → BootstrapSet → BootstrapSet
record_answer addr answered [] = []
record_answer addr answered (e ∷ set) =
    if e.addr == addr then mark answered e ∷ set else e ∷ record_answer addr answered set

abbrev pub state_of : Bool → String
state_of answered = if answered then "online" else "offline"

unfoldable pub states : BootstrapSet → List String
states set = map (λ e. state_of e.answered) set

-- The dials at the start of `crawl_once`; `connects` says which addresses a dial reaches in time.
unfoldable pub dial_all : (String → Bool) → BootstrapSet → BootstrapSet
dial_all connects set =
    map (λ (e : BootstrapEntry). record e { dialed = contains e.addr "/p2p/" && connects e.addr })
      set
