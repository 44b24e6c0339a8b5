-- ===== src/Rtps/Summary/Counts.antt =====
-- How the counts of `summarize_flow` hang together.
use qos_extended_mros2_esp.Base.{
  ℕ, ◌+◌, ◌-◌, ◌≤◌, Bool, true, false, Option, none, some, List, [], ◌∷◌, ◌≡◌, refl, map, length,
  filter, sum, flat_map, All, arith, if◌then◌else◌, length-append, length-filter,
}
use qos_extended_mros2_esp.Base.Int.{ℤ, int_eq}
use qos_extended_mros2_esp.Base.Dict.{Dict, values, push}
use qos_extended_mros2_esp.Base.Order.{length-sort_by}
use qos_extended_mros2_esp.Rtps.Records.{Flow, data_event, acknack, TaggedEvent}
use qos_extended_mros2_esp.Rtps.Times.{sort_times}
use qos_extended_mros2_esp.Rtps.Summary.Flows.{
  with_time, by_sequence_from, sort_each, is_repeated, distinct, of_type, sequence_times,
  summarize_flow, has_requests,
}

-- DATA that has a sequence number.
abbrev pub has_sequence : TaggedEvent → Bool
has_sequence e = elim e.event.sequence [ none ↦ false | some s ↦ true ]

total_times : Dict ℤ (List ℕ) → ℕ
total_times d = sum (map length (values d))

abbrev IsFilled : Dict ℤ (List ℕ) → Type 0
IsFilled d = All (λ ts. 1 ≤ length ts) (values d)

total_times-push :
    (s : ℤ) (t : ℕ) (d : Dict ℤ (List ℕ)) → total_times (push s t d) ≡ total_times d + 1
unfolding total_times
total_times-push s t [] = omega arith
total_times-push s t ((j, ts) ∷ d) =
    ground (arith, total_times-push s t d, length-append ts (t ∷ []))

push-IsFilled : (s : ℤ) (t : ℕ) (d : Dict ℤ (List ℕ)) → IsFilled d → IsFilled (push s t d)
push-IsFilled s t [] h = (omega arith, tt)
push-IsFilled s t ((j, ts) ∷ d) (filled, h) =
    ground (arith, push-IsFilled s t d h, length-append ts (t ∷ []))

with_time_counts :
    (d : Dict ℤ (List ℕ)) (e : TaggedEvent)
    → (total_times (with_time d e) ≡ total_times d + (if has_sequence e then 1 else 0))
      × (IsFilled d → IsFilled (with_time d e))
unfolding with_time
with_time_counts d e = with_number e.event.sequence
  where
    with_number :
        (s : Option ℤ)
        → (total_times (elim s [ none ↦ d | some n ↦ push n e.event.time d ])
            ≡ total_times d + (if (elim s [ none ↦ false | some n ↦ true ]) then 1 else 0))
          × (IsFilled d → IsFilled (elim s [ none ↦ d | some n ↦ push n e.event.time d ]))
    with_number none = (omega arith, λ h. h)
    with_number (some n) = (total_times-push n e.event.time d, push-IsFilled n e.event.time d)

total_times-by_sequence_from :
    (d : Dict ℤ (List ℕ)) (events : List TaggedEvent)
    → total_times (by_sequence_from d events) ≡ total_times d + length (filter has_sequence events)
unfolding by_sequence_from with_time
total_times-by_sequence_from d [] = omega arith
total_times-by_sequence_from d (e ∷ events) =
    ground (arith, total_times-by_sequence_from (with_time d e) events, with_time_counts d e)

by_sequence_from-IsFilled :
    (d : Dict ℤ (List ℕ)) (events : List TaggedEvent)
    → IsFilled d
    → IsFilled (by_sequence_from d events)
unfolding by_sequence_from with_time
by_sequence_from-IsFilled d [] h = h
by_sequence_from-IsFilled d (e ∷ events) h =
    by_sequence_from-IsFilled (with_time d e) events ((with_time_counts d e).1 h)

length-sort_times : (ts : List ℕ) → length (sort_times ts) ≡ length ts
unfolding sort_times
length-sort_times ts = length-sort_by _ ts

-- Sorting changes neither the number of times nor which entries hold some.
sort_each_counts :
    (d : Dict ℤ (List ℕ))
    → (total_times (sort_each d) ≡ total_times d) × (IsFilled d → IsFilled (sort_each d))
unfolding sort_each total_times
sort_each_counts [] = (refl, λ h. h)
sort_each_counts ((s, ts) ∷ d) = ground (arith, sort_each_counts d, length-sort_times ts)

duplicates_plus_unique :
    (xss : List (List ℕ))
    → All (λ ts. 1 ≤ length ts) xss
    → sum (map (λ (ts : List ℕ). length ts - 1) (filter is_repeated xss)) + length xss
      ≡ sum (map length xss)
duplicates_plus_unique [] h = omega arith
duplicates_plus_unique (ts ∷ xss) (filled, h) = ground (arith, duplicates_plus_unique xss h)

length-values-sort_each :
    (d : Dict ℤ (List ℕ)) → sum (map length (values (sort_each d))) ≡ total_times (sort_each d)
unfolding total_times
length-values-sort_each d = refl

contained : (p : List ℕ → Bool) (xss : List (List ℕ)) → length (filter p xss) ≤ length xss
contained p xss = length-filter p xss

length-distinct : (xs : List ℤ) → length (distinct xs) ≤ length xs
unfolding distinct
length-distinct [] = omega arith
length-distinct (x ∷ xs) = ground (arith, length-distinct xs)

requests-le :
    (events : List TaggedEvent)
    → length (filter has_requests events)
      ≤ length (flat_map (λ (e : TaggedEvent). e.event.requested_sequences) events)
requests-le [] = omega arith
requests-le (e ∷ events) = ground (
  arith,
  requests-le events,
  length-append e.event.requested_sequences
      (flat_map (λ (x : TaggedEvent). x.event.requested_sequences) events),
)

empty_total :
    (events : List TaggedEvent)
    → total_times (by_sequence_from [] events) ≡ length (filter has_sequence events)
unfolding total_times
empty_total events = rw (total_times-by_sequence_from [] events) (omega arith)

-- The DATA events of a run and flow that have a sequence number.
pub numbered_data : List TaggedEvent → ℕ → Flow → ℕ
numbered_data events run_id flow =
    length (filter has_sequence (of_type data_event run_id flow events))

-- Every DATA observation that has a sequence number is either the first of its number or counted
-- as a duplicate; only repeated numbers have duplicates; and the counts of requests are ordered.
pub summarize_flow_counts :
    (events : List TaggedEvent) (run_id : ℕ) (flow : Flow)
    → let s = summarize_flow events run_id flow in
      (s.data_unique_sequences + s.data_duplicate_observations ≡ numbered_data events run_id flow)
      × (numbered_data events run_id flow ≤ s.data_observations)
      × (s.data_repeated_sequences ≤ s.data_unique_sequences)
      × (s.requested_unique_sequences ≤ s.requested_sequence_observations)
      × (s.acknack_with_requests ≤ s.requested_sequence_observations)
unfolding summarize_flow numbered_data sequence_times
summarize_flow_counts events run_id flow =
    let data_events = of_type data_event run_id flow events in
    let d = by_sequence_from [] data_events in
    (
      omega (
        arith,
        duplicates_plus_unique (values (sort_each d))
            ((sort_each_counts d).1 (by_sequence_from-IsFilled [] data_events tt)),
        length-values-sort_each d,
        (sort_each_counts d).0,
        empty_total data_events,
      ),
      length-filter has_sequence data_events,
      contained is_repeated _,
      length-distinct _,
      requests-le (of_type acknack run_id flow events),
    )
