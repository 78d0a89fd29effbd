-- ===== src/Amw/Discovery.antt =====
-- crates/audesys-amw-inproc/src/discovery.rs, `StaticDiscovery`. It shares the transport's signals, so
-- its queries take them. A callback is a value of a type `C`, and `notify_watchers` gives the calls it
-- makes, in the order of the list that stands for the `HashMap`.
use audesys.Base.{ℕ, List, [], ◌∷◌, ◌++◌, map, Option, none, some, ◌==◌, if◌then◌else◌, map_get}
use audesys.Hal.Stream.{Timestamp}
use audesys.Amw.Transport.{Entry, bump, matches_pattern, filter_names}

pub record DiscoveryEntry : Type 0 where
  pub name : List ℕ
  pub description : List ℕ
  pub metadata : List (List ℕ × List ℕ)
  pub created_at : Timestamp

pub data DiscoveryEvent : Type 0 where
  added : DiscoveryEntry → DiscoveryEvent
  removed : List ℕ → DiscoveryEvent
  modified : DiscoveryEntry → DiscoveryEvent

abbrev pub signal_to_entry : List ℕ × Entry → DiscoveryEntry
signal_to_entry signal = record {
  name = signal.0;
  description = [];
  metadata = [];
  created_at = signal.1.1;
}

unfoldable pub list_all : List (List ℕ × Entry) → List DiscoveryEntry
list_all signals = map signal_to_entry signals

abbrev pub entry_at : List ℕ → Option Entry → Option DiscoveryEntry
entry_at name none = none
entry_at name (some e) = some (signal_to_entry (name, e))

unfoldable pub find_by_name : List (List ℕ × Entry) → List ℕ → Option DiscoveryEntry
find_by_name signals name = entry_at name (map_get name signals)

unfoldable pub find_by_pattern : List (List ℕ × Entry) → List ℕ → List DiscoveryEntry
find_by_pattern signals pattern =
    map signal_to_entry (filter_names (λ name. matches_pattern name pattern) signals)

pub record Watchers (C : Type 0) : Type 0 where
  pub watchers : List (ℕ × C)
  pub next_watch_id : ℕ

module _ {C : Type 0} where
  -- The ids grow, so a new watcher replaces none before they wrap.
  unfoldable pub remove_id : ℕ → List (ℕ × C) → List (ℕ × C)
  remove_id id [] = []
  remove_id id (w ∷ ws) = let kept = remove_id id ws in if w.0 == id then kept else w ∷ kept

  unfoldable pub watch : Watchers C → C → Watchers C
  watch w cb = record w {
    watchers = remove_id w.next_watch_id w.watchers ++ (w.next_watch_id, cb) ∷ [];
    next_watch_id = bump w.next_watch_id;
  }

  unfoldable pub unwatch : Watchers C → ℕ → Watchers C
  unwatch w id = record w { watchers = remove_id id w.watchers }

  unfoldable pub notify_watchers : Watchers C → DiscoveryEvent → List (C × DiscoveryEvent)
  notify_watchers w event = map (λ e. (e.1, event)) w.watchers
