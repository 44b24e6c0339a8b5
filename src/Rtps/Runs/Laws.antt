-- ===== src/Rtps/Runs/Laws.antt =====
-- The run numbers that `guid_run_map` and `assign_runs` give out.
use qos_extended_mros2_esp.Base.{
  ℕ, ◌+◌, ◌≤◌, ◌<◌, String, true, none, some, List, [], ◌∷◌, ◌≡◌, ◌≢◌, refl, string_eq, length, All,
  All-mono, arith,
}
use qos_extended_mros2_esp.Base.Dict.{
  Dict, lookup, NodupKeys, lookup-setdefault, setdefault-NodupKeys,
}
use qos_extended_mros2_esp.Base.Order.{insert_by, sort_by, IsSorted, sort_by-IsSorted}
use qos_extended_mros2_esp.Rtps.Records.{Flow, EventType, Event}
use qos_extended_mros2_esp.Rtps.Runs.Numbering.{
  is_source, seen_with, first_seen_from, numbered, guid_run_map,
}

abbrev first_time : String × ℕ → ℕ
first_time entry = entry.1

lookup-numbered_bounds :
    (guid : String) (index : ℕ) (d : Dict String ℕ) (run : ℕ)
    → lookup guid (numbered index d) ≡ some run
    → (index + 1 ≤ run) × (run ≤ index + length d)
unfolding numbered
lookup-numbered_bounds guid index [] run h = cc
lookup-numbered_bounds guid index ((k, t) ∷ d) run h =
    ground (arith, lookup-numbered_bounds guid (index + 1) d run)

lookup-numbered_present :
    (guid : String) (index : ℕ) (d : Dict String ℕ)
    → lookup guid d ≢ none
    → lookup guid (numbered index d) ≢ none
unfolding numbered
lookup-numbered_present guid index [] h = h
lookup-numbered_present guid index ((k, t) ∷ d) h =
    ground (arith, lookup-numbered_present guid (index + 1) d)

length-numbered : (index : ℕ) (d : Dict String ℕ) → length (numbered index d) ≡ length d
unfolding numbered
length-numbered index [] = refl
length-numbered index ((k, t) ∷ d) = omega (arith, length-numbered (index + 1) d)

lookup-insert_by :
    (guid : String) (entry : String × ℕ) (d : Dict String ℕ)
    → lookup entry.0 d ≡ none
    → lookup guid (insert_by first_time entry d) ≡ lookup guid (entry ∷ d)
unfolding insert_by
lookup-insert_by guid entry [] h = refl
lookup-insert_by guid entry ((k, t) ∷ d) h = ground (arith, lookup-insert_by guid entry d)

lookup-sort_by :
    (guid : String) (d : Dict String ℕ)
    → NodupKeys d
    → lookup guid (sort_by first_time d) ≡ lookup guid d
unfolding sort_by
lookup-sort_by guid [] u = refl
lookup-sort_by guid ((k, t) ∷ d) (fresh, u) = ground (
  arith,
  lookup-insert_by guid (k, t) (sort_by first_time d),
  lookup-sort_by guid d u,
  lookup-sort_by k d u,
)

lookup_time-le :
    (guid : String) (x t : ℕ) (d : Dict String ℕ)
    → All (λ entry. x ≤ first_time entry) d
    → lookup guid d ≡ some t
    → x ≤ t
lookup_time-le guid x t [] h e = cc
lookup_time-le guid x t ((k, y) ∷ d) (le, h) e = ground (arith, lookup_time-le guid x t d h)

-- In a list that is sorted by time a smaller number means no later time.
numbered_order :
    (g h : String) (index : ℕ) (d : Dict String ℕ) (r s t u : ℕ)
    → IsSorted first_time d
    → lookup g (numbered index d) ≡ some r
    → lookup h (numbered index d) ≡ some s
    → lookup g d ≡ some t
    → lookup h d ≡ some u
    → r < s
    → t ≤ u
unfolding numbered
numbered_order g h index [] r s t u sorted a b c e lt = cc
numbered_order g h index ((k, x) ∷ d) r s t u (below, sorted) a b c e lt = ground (
  arith,
  numbered_order g h (index + 1) d r s t u sorted,
  lookup-numbered_bounds g (index + 1) d r,
  lookup_time-le h x u d below,
)

numbered_injective :
    (g h : String) (index : ℕ) (d : Dict String ℕ) (r : ℕ)
    → lookup g (numbered index d) ≡ some r
    → lookup h (numbered index d) ≡ some r
    → g ≡ h
unfolding numbered
numbered_injective g h index [] r a b = cc
numbered_injective g h index ((k, x) ∷ d) r a b = ground (
  arith,
  numbered_injective g h (index + 1) d r,
  lookup-numbered_bounds g (index + 1) d r,
  lookup-numbered_bounds h (index + 1) d r,
)

module _ (flow : Flow) (source_ip : String) (event_type : EventType) where
  abbrev see : Dict String ℕ → Event → Dict String ℕ
  see = seen_with flow source_ip event_type

  abbrev pub first_seen : Dict String ℕ → List Event → Dict String ℕ
  first_seen = first_seen_from flow source_ip event_type

  first_seen_from-NodupKeys :
      (seen : Dict String ℕ) (events : List Event)
      → NodupKeys seen
      → NodupKeys (first_seen seen events)
  unfolding first_seen_from seen_with
  first_seen_from-NodupKeys seen [] u = u
  first_seen_from-NodupKeys seen (e ∷ events) u =
      first_seen_from-NodupKeys (see seen e) events
        (ground (arith, setdefault-NodupKeys e.source_guid e.time seen u))

  lookup-see :
      (guid : String) (seen : Dict String ℕ) (e : Event)
      → lookup guid seen ≢ none
      → lookup guid (see seen e) ≢ none
  unfolding seen_with
  lookup-see guid seen e h = ground (arith, lookup-setdefault guid e.source_guid e.time seen)

  -- What is recorded stays.
  lookup-first_seen_from :
      (guid : String) (seen : Dict String ℕ) (events : List Event)
      → lookup guid seen ≢ none
      → lookup guid (first_seen seen events) ≢ none
  unfolding first_seen_from
  lookup-first_seen_from guid seen [] h = h
  lookup-first_seen_from guid seen (e ∷ events) h =
      lookup-first_seen_from guid (see seen e) events (lookup-see guid seen e h)

  -- An event that the loop takes has an entry.
  abbrev pub IsRecorded : Dict String ℕ → Event → Type 0
  IsRecorded seen e =
      is_source flow source_ip event_type e ≡ true → lookup e.source_guid seen ≢ none

  see-IsRecorded : (seen : Dict String ℕ) (e : Event) → IsRecorded (see seen e) e
  unfolding seen_with
  see-IsRecorded seen e h =
      ground (arith, lookup-setdefault e.source_guid e.source_guid e.time seen)

  first_seen_from_records :
      (seen : Dict String ℕ) (events : List Event)
      → All (IsRecorded (first_seen seen events)) events
  unfolding first_seen_from
  first_seen_from_records seen [] = tt
  first_seen_from_records seen (e ∷ events) = (
    λ h. lookup-first_seen_from e.source_guid (see seen e) events (see-IsRecorded seen e h),
    first_seen_from_records (see seen e) events,
  )

  module _ (events : List Event) where
    abbrev runs : Dict String ℕ
    runs = guid_run_map events flow source_ip event_type

    -- A number is at least 1, and no greater than the number of sources.
    pub guid_run_map_bounds :
        (guid : String) (run : ℕ) → lookup guid runs ≡ some run → (1 ≤ run) × (run ≤ length runs)
    unfolding guid_run_map
    guid_run_map_bounds guid run h =
        let ordered = sort_by first_time (first_seen [] events) in
        omega (arith, lookup-numbered_bounds guid 0 ordered run h, length-numbered 0 ordered)

    -- Every event that the loop takes has a number.
    pub guid_run_map_total :
        All
          (λ e. is_source flow source_ip event_type e ≡ true → lookup e.source_guid runs ≢ none)
          events
    unfolding guid_run_map
    guid_run_map_total =
        All-mono events
          (λ e recorded h. lookup-numbered_present e.source_guid 0 _ (
            rw
              (lookup-sort_by e.source_guid (first_seen [] events)
                (first_seen_from-NodupKeys [] events tt))
              (recorded h)))
          (first_seen_from_records [] events)

    -- Two sources with one number are one; and a source with a smaller number was not seen later.
    pub guid_run_map_order :
        (g h : String) (r s t u : ℕ)
        → lookup g runs ≡ some r
        → lookup h runs ≡ some s
        → lookup g (first_seen [] events) ≡ some t
        → lookup h (first_seen [] events) ≡ some u
        → (r ≡ s → g ≡ h) × (r < s → t ≤ u)
    unfolding guid_run_map
    guid_run_map_order g h r s t u a b c e =
        let ordered = sort_by first_time (first_seen [] events) in
        let fresh = first_seen_from-NodupKeys [] events tt in
        (
          λ same. numbered_injective g h 0 ordered r a (rw same b),
          λ lt.
              numbered_order g h 0 ordered r s t u
                (sort_by-IsSorted first_time (first_seen [] events)) a b
                (rw (lookup-sort_by g (first_seen [] events) fresh) c)
                (rw (lookup-sort_by h (first_seen [] events) fresh) e) lt,
        )
