-- ===== src/Rtps/Links/Earliest.antt =====
-- What each link of `reconstruct_nack_links` says of the DATA on the wire.
use mathlib.Core.List.{append-nil, append_assoc}
use qos_extended_mros2_esp.Base.{
  ℕ, ◌-◌, ◌≤◌, ◌<◌, Bool, true, ◌&&◌, Option, none, some, List, [], ◌∷◌, ◌++◌, ◌≡◌, refl, ◌∙◌, sym,
  ap, All, All-append, All-mono, All-map, any, arith, ltb, eqb, if◌then◌else◌, head?, ◌==◌, ◌⊎◌,
  inl, inr, Bool-cases, option_eq, subst,
}
use qos_extended_mros2_esp.Base.Int.{ℤ, int_eq}
use qos_extended_mros2_esp.Base.Dict.{Dict, push}
use qos_extended_mros2_esp.Base.Order.{
  sort_by, IsSorted, sort_by-IsSorted, sort_by-All_inv, any-sort_by,
}
use qos_extended_mros2_esp.Rtps.Records.{Flow, data_event, acknack, Event, TaggedEvent, Link}
use qos_extended_mros2_esp.Rtps.Times.{sort_times}
use qos_extended_mros2_esp.Rtps.Summary.{
  in_run, is_type, of_type, with_time, by_sequence_from, sort_each,
}
use qos_extended_mros2_esp.Rtps.Links.Requests.{
  times_for, data_times_of, before, after, is_some, link_of, links_from, reconstruct_nack_links,
}

-- The times of the DATA events with one sequence number, in the order of the capture.
pub times_of : ℤ → List TaggedEvent → List ℕ
times_of sequence [] = []
times_of sequence (e ∷ events) =
    let rest = times_of sequence events in
    elim e.event.sequence [
      | none ↦ rest
      | some s ↦ if sequence == s then e.event.time ∷ rest else rest
    ]

times_for-push :
    (s j : ℤ) (t : ℕ) (d : Dict ℤ (List ℕ))
    → times_for j (push s t d) ≡ (if j == s then times_for j d ++ t ∷ [] else times_for j d)
times_for-push s j t [] = ground arith
times_for-push s j t (_ ∷ d) = ground (arith, times_for-push s j t d)

times_for-with_time :
    (j : ℤ) (d : Dict ℤ (List ℕ)) (e : TaggedEvent)
    → times_for j (with_time d e) ≡ times_for j d ++ times_of j (e ∷ [])
unfolding with_time times_of
times_for-with_time j d e = with_number e.event.sequence
  where
    with_number :
        (s : Option ℤ)
        → times_for j (elim s [ none ↦ d | some n ↦ push n e.event.time d ])
          ≡ times_for j d
            ++ (elim s [ none ↦ [] | some n ↦ if j == n then e.event.time ∷ [] else [] ])
    with_number none = sym (append-nil _)
    with_number (some n) =
        times_for-push n j e.event.time d ∙ ground (arith, append-nil (times_for j d))

times_of-cons :
    (j : ℤ) (e : TaggedEvent) (events : List TaggedEvent)
    → times_of j (e ∷ events) ≡ times_of j (e ∷ []) ++ times_of j events
unfolding times_of
times_of-cons j e events = ground arith

times_for-by_sequence_from :
    (j : ℤ) (d : Dict ℤ (List ℕ)) (events : List TaggedEvent)
    → times_for j (by_sequence_from d events) ≡ times_for j d ++ times_of j events
unfolding by_sequence_from
times_for-by_sequence_from j d [] = unfold times_of in sym (append-nil _)
times_for-by_sequence_from j d (e ∷ events) =
    rw
      (
        times_for-by_sequence_from j (with_time d e) events,
        times_for-with_time j d e,
        times_of-cons j e events,
      )
      (append_assoc (times_for j d) (times_of j (e ∷ [])) (times_of j events))

sort_times-nil : sort_times [] ≡ []
unfolding sort_times sort_by
sort_times-nil = refl

times_for-sort_each :
    (j : ℤ) (d : Dict ℤ (List ℕ)) → times_for j (sort_each d) ≡ sort_times (times_for j d)
unfolding sort_each
times_for-sort_each j [] = sym sort_times-nil
times_for-sort_each j ((s, ts) ∷ d) = ground (arith, times_for-sort_each j d)

-- The times that the second loop reads are those of the DATA events, sorted.
times_for-data_times_of :
    (events : List TaggedEvent) (run_id : ℕ) (flow : Flow) (j : ℤ)
    → times_for j (data_times_of events run_id flow)
      ≡ sort_times (times_of j (of_type data_event run_id flow events))
unfolding data_times_of
times_for-data_times_of events run_id flow j =
    times_for-sort_each j _ ∙ ap sort_times (times_for-by_sequence_from j [] _)

-- The next time behind a request is the least one behind it; without one, none is behind it.
abbrev pub IsNextTime : ℕ → List ℕ → Option ℕ → Type 0
IsNextTime ack_time times none = All (λ u. u ≤ ack_time) times
IsNextTime ack_time times (some t) =
    (any (λ u. eqb u t) times ≡ true) × (ack_time < t) × All (λ u. (u ≤ ack_time) ⊎ (t ≤ u)) times

IsNextTime-cons :
    (ack_time x : ℕ) (times : List ℕ) (next : Option ℕ)
    → x ≤ ack_time
    → IsNextTime ack_time times next
    → IsNextTime ack_time (x ∷ times) next
IsNextTime-cons ack_time x times none le h = (le, h)
IsNextTime-cons ack_time x times (some t) le (mem, lt, least) = (ground arith, lt, (inl le, least))

head?-after_sorted :
    (ack_time : ℕ) (times : List ℕ)
    → IsSorted (λ t. t) times
    → IsNextTime ack_time times (head? (after ack_time times))
head?-after_sorted ack_time [] sorted = tt
head?-after_sorted ack_time (x ∷ times) (below, sorted) = elim (Bool-cases (ltb ack_time x)) [
  | inl later ↦
      let lt : ack_time < x = ground arith in
      let self : any (λ u. eqb u x) (x ∷ times) ≡ true = ground arith in
      rw later (self, lt, (inr (omega arith), All-mono times (λ u le. inr le) below))
  | inr earlier ↦
      let le : x ≤ ack_time = ground arith in
      rw earlier (IsNextTime-cons ack_time x times _ le (head?-after_sorted ack_time times sorted))
]

-- The sorted times and the times as captured have the same next time.
IsNextTime-sort_times :
    (ack_time : ℕ) (times : List ℕ) (next : Option ℕ)
    → IsNextTime ack_time (sort_times times) next
    → IsNextTime ack_time times next
unfolding sort_times
IsNextTime-sort_times ack_time times none h = sort_by-All_inv (λ (t : ℕ). t) _ times h
IsNextTime-sort_times ack_time times (some t) (mem, lt, least) = (
  sym (any-sort_by (λ (u : ℕ). u) (λ u. eqb u t) times) ∙ mem,
  lt,
  sort_by-All_inv (λ (u : ℕ). u) _ times least,
)

sort_times-IsSorted : (times : List ℕ) → IsSorted (λ t. t) (sort_times times)
unfolding sort_times
sort_times-IsSorted times = sort_by-IsSorted (λ (t : ℕ). t) times

is_some-before :
    (ack_time : ℕ) (times : List ℕ)
    → is_some (head? (before ack_time times)) ≡ any (λ u. ltb u ack_time) times
is_some-before ack_time [] = refl
is_some-before ack_time (x ∷ times) = ground (arith, is_some-before ack_time times)

any-sort_times : (p : ℕ → Bool) (times : List ℕ) → any p (sort_times times) ≡ any p times
unfolding sort_times
any-sort_times p times = any-sort_by (λ (t : ℕ). t) p times

-- What a link says of the times at which DATA with its number was captured.
pub record IsLinked (times : List ℕ) (link : Link) : Type 0 where
  pub prior : link.prior_data_observed ≡ any (λ u. ltb u link.ack_time) times
  pub post : link.post_nack_data_observed ≡ any (λ u. ltb link.ack_time u) times
  pub next : IsNextTime link.ack_time times link.next_data_time
  pub delay :
      link.nack_to_next_data
      ≡ elim link.next_data_time [ none ↦ none | some t ↦ some (t - link.ack_time) ]

is_some-after :
    (ack_time : ℕ) (times : List ℕ)
    → is_some (head? (after ack_time times)) ≡ any (λ u. ltb ack_time u) times
is_some-after ack_time [] = refl
is_some-after ack_time (x ∷ times) = ground (arith, is_some-after ack_time times)

link_of-IsLinked :
    (d : Dict ℤ (List ℕ)) (run_id : ℕ) (flow : Flow) (e : Event) (j : ℤ) (times : List ℕ)
    → times_for j d ≡ sort_times times
    → IsLinked times (link_of d run_id flow e j)
unfolding link_of
link_of-IsLinked d run_id flow e j times read = record {
  prior =
      ap (λ ts. is_some (head? (before e.time ts))) read
      ∙ is_some-before e.time (sort_times times)
      ∙ any-sort_times _ times;
  post =
      ap (λ ts. is_some (head? (after e.time ts))) read
      ∙ is_some-after e.time (sort_times times)
      ∙ any-sort_times _ times;
  next = IsNextTime-sort_times e.time times _ (
      subst (λ ts. IsNextTime e.time (sort_times times) (head? (after e.time ts))) (sym read)
        (head?-after_sorted e.time (sort_times times) (sort_times-IsSorted times)));
  delay = refl;
}

links_from-All :
    (P : Link → Type 0) (d : Dict ℤ (List ℕ)) (run_id : ℕ) (flow : Flow)
    → ((e : Event) (j : ℤ) → P (link_of d run_id flow e j))
    → (events : List TaggedEvent) → All P (links_from d run_id flow events)
unfolding links_from
links_from-All P d run_id flow h [] = tt
links_from-All P d run_id flow h (e ∷ events) =
    let rest = links_from-All P d run_id flow h events in
    elim (Bool-cases (in_run run_id flow e && is_type acknack e)) [
      | inl taken ↦ rw taken (
          All-append P _ _
            (All-map P (link_of d run_id flow e.event) e.event.requested_sequences (h e.event))
            rest)
      | inr other ↦ rw other rest
    ]

-- Each link tells of the DATA of its run and flow that has the requested number: whether some was
-- captured before the request and whether some was after it, the earliest time after it, and the
-- delay up to that time; without DATA after the request the last two are blank.
pub reconstruct_nack_links-IsLinked :
    (events : List TaggedEvent) (run_id : ℕ) (flow : Flow)
    → All
        (λ (link : Link).
          IsLinked (times_of link.requested_sequence (of_type data_event run_id flow events)) link)
        (reconstruct_nack_links events run_id flow)
unfolding reconstruct_nack_links link_of
reconstruct_nack_links-IsLinked events run_id flow =
    links_from-All _ (data_times_of events run_id flow) run_id flow
      (λ e j.
        link_of-IsLinked (data_times_of events run_id flow) run_id flow e j
          (times_of j (of_type data_event run_id flow events))
          (times_for-data_times_of events run_id flow j))
      events

-- Every link carries the flow and the run that it was made for.
pub reconstruct_nack_links-flow :
    (events : List TaggedEvent) (run_id : ℕ) (flow : Flow)
    → All
        (λ (link : Link). (link.run_id ≡ run_id) × (link.flow ≡ flow))
        (reconstruct_nack_links events run_id flow)
unfolding reconstruct_nack_links link_of
reconstruct_nack_links-flow events run_id flow =
    links_from-All _ (data_times_of events run_id flow) run_id flow (λ e j. (refl, refl)) events
