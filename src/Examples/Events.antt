-- ===== src/Examples/Events.antt =====
-- A timeline of at most two events, with three reports.
use smart_device_io_t_operat.Prelude.{◌≤◌, ◌≡◌, refl, List, [], ◌∷◌, map, length, arith}
use smart_device_io_t_operat.Observability
use smart_device_io_t_operat.Observability.{Observer, new_observer, obs_record}
use smart_device_io_t_operat.Observability.Timeline.{
  Report, record_all, event_of, last_of, record_all-last_of,
}

abbrev pub small : Observer
small = record new_observer { timeline_max_events = 2 }

abbrev pub reports : List Report
reports =
    record {
      tick = 0;
      category = Observability.scheduler;
      event_type = "DISPATCH";
      related_pids = 1 ∷ [];
    }
    ∷ record {
      tick = 1;
      category = Observability.memory;
      event_type = "PAGE_FAULT";
      related_pids = 1 ∷ [];
    }
    ∷ record {
      tick = 2;
      category = Observability.priority;
      event_type = "AGING";
      related_pids = 2 ∷ [];
    }
    ∷ []

record_all-last_of_example :
    ((record_all reports small).system_events ≡ last_of 2 (map event_of reports))
    × (length (record_all reports small).system_events ≤ 2)
record_all-last_of_example = record_all-last_of reports small refl (omega arith) (omega arith)
