-- ===== src/Probe/Laws.antt =====
-- What a record that passes `validate_control_probe` says of the two cores.
use qos_extended_mros2_esp.Base.{
  ℕ, ◌+◌, ◌-◌, ◌*◌, ◌/◌, ◌≤◌, ◌<◌, ◌≡◌, ◌↔◌, ◌≢◌, refl, sym, ◌∙◌, subst, String, Bool, false,
  Option, none, some, List, [], ◌∷◌, length, arith, string_eq,
}
use qos_extended_mros2_esp.Base.Int.{
  ℤ, pos-add, pos, negsuc, ◌-ℤ◌, ◌+ℤ◌, ◌*ℤ◌, leb_ℤ, floor_div, int_eq,
}
use qos_extended_mros2_esp.Base.Result.{Result, ok, >>=-eq-ok}
use qos_extended_mros2_esp.Probe.Record.{
  ProbeError, Counters, check_core, expected_busy, check_counters, Report, report_of,
  validate_record, validate_control_probe, parse_fields, check_text, read_counters, records_of,
  validate_records,
}

-- One core: its window, its idle share, and its load in millionths of the window, rounded down.
pub record IsCore (wall_us idle_delta_us busy_ppm : ℤ) : Type 0 where
  pub wall : ℕ
  pub idle : ℕ
  pub busy : ℕ
  pub wall_is : wall_us ≡ pos wall
  pub idle_is : idle_delta_us ≡ pos idle
  pub busy_is : busy_ppm ≡ pos busy
  pub window : (19_500_000 ≤ wall) × (wall ≤ 20_500_000)
  pub idle_in_window : idle ≤ wall
  pub rounded_down : busy * wall ≤ (wall - idle) * 1_000_000
  pub rounded_next : (wall - idle) * 1_000_000 < (busy + 1) * wall
  pub at_most_all : busy ≤ 1_000_000

div_bounds : (n d : ℕ) → 0 < d → (n / d * d ≤ n) × (n < (n / d + 1) * d)
div_bounds n d h = (grind arith, grind arith)

div-le : (n d k : ℕ) → 0 < d → n ≤ k * d → n / d ≤ k
div-le n d k h le = grind arith

expected_busy_lem :
    (w i : ℕ) → i ≤ w → 0 < w → expected_busy (pos w) (pos i) ≡ pos ((w - i) * 1_000_000 / w)
unfolding expected_busy ◌-ℤ◌ ◌*ℤ◌
expected_busy_lem w i le h = ground arith

check_core_lem :
    (wall_us idle_us : ℤ) (u : Unit {0})
    → check_core wall_us idle_us ≡ ok u
    → (w i : ℕ) × (wall_us ≡ pos w)
      × (idle_us ≡ pos i)
      × (19_500_000 ≤ w)
      × (w ≤ 20_500_000)
      × (i ≤ w)
unfolding check_core
check_core_lem (pos w) (pos i) u h = (w, i, refl, refl, ground arith, ground arith, ground arith)
check_core_lem (pos w) (negsuc i) u h = absurd (ground arith)
check_core_lem (negsuc w) idle u h = absurd (ground arith)

check_core-IsCore :
    (wall_us idle_us busy_ppm : ℤ) (u : Unit {0})
    → check_core wall_us idle_us ≡ ok u
    → busy_ppm ≡ expected_busy wall_us idle_us
    → IsCore wall_us idle_us busy_ppm
check_core-IsCore wall_us idle_us busy_ppm u h b =
    let (w, i, wall_is, idle_is, low, high, le) = check_core_lem wall_us idle_us u h in
    let n = (w - i) * 1_000_000 in
    let d : 0 < w = omega arith in
    record {
      wall = w;
      idle = i;
      busy = n / w;
      wall_is = wall_is;
      idle_is = idle_is;
      busy_is = b ∙ rw (wall_is, idle_is) (expected_busy_lem w i le d);
      window = (low, high);
      idle_in_window = le;
      rounded_down = (div_bounds n w d).0;
      rounded_next = (div_bounds n w d).1;
      at_most_all = div-le n w 1_000_000 d (grind arith);
    }

-- What the checks on the counters leave.
abbrev Passes : Counters → Type 0
Passes c =
    (c.fault_flags ≡ pos 0)
    × (leb_ℤ c.end_end_us c.start_begin_us ≡ false)
    × (check_core c.wall0_us c.idle0_delta_us ≡ ok tt)
    × (check_core c.wall1_us c.idle1_delta_us ≡ ok tt)
    × (c.busy0_ppm ≡ expected_busy c.wall0_us c.idle0_delta_us)
    × (c.busy1_ppm ≡ expected_busy c.wall1_us c.idle1_delta_us)
    × (c.busy_mean_ppm
        ≡ floor_div
            (expected_busy c.wall0_us c.idle0_delta_us +ℤ expected_busy c.wall1_us c.idle1_delta_us)
            (pos 2))

check_counters-Passes : (c : Counters) (u : Unit {0}) → check_counters c ≡ ok u → Passes c
unfolding check_counters
check_counters-Passes c u h = ground arith

-- A report: both cores, and the mean of their loads, rounded down.
pub record IsReport (system telemetry : String) (r : Report) : Type 0 where
  pub system_is : r.system ≡ system
  pub telemetry_is : r.telemetry ≡ telemetry
  pub core0 : IsCore r.wall0_us r.idle0_delta_us r.busy0_ppm
  pub core1 : IsCore r.wall1_us r.idle1_delta_us r.busy1_ppm
  pub mean : ℕ
  pub mean_is : r.busy_mean_ppm ≡ pos mean
  pub mean_rounded : (2 * mean ≤ core0.busy + core1.busy) × (core0.busy + core1.busy ≤ 2 * mean + 1)

mean_of_loads :
    (mean load0 load1 : ℤ) (a b : ℕ)
    → mean ≡ floor_div (load0 +ℤ load1) (pos 2)
    → load0 ≡ pos a
    → load1 ≡ pos b
    → mean ≡ pos ((a + b) / 2)
mean_of_loads mean load0 load1 a b h p q = h ∙ rw (p, q, pos-add a b) refl

report_of-IsReport :
    (system telemetry : String) (c : Counters)
    → Passes c
    → IsReport system telemetry (report_of system telemetry c)
unfolding report_of
report_of-IsReport system telemetry c (_, _, window0, window1, load0, load1, mean_is) =
    let first = check_core-IsCore c.wall0_us c.idle0_delta_us c.busy0_ppm tt window0 load0 in
    let second = check_core-IsCore c.wall1_us c.idle1_delta_us c.busy1_ppm tt window1 load1 in
    record {
      system_is = refl;
      telemetry_is = refl;
      core0 = first;
      core1 = second;
      mean = (first.busy + second.busy) / 2;
      mean_is =
          mean_of_loads c.busy_mean_ppm _ _ first.busy second.busy mean_is
            (sym load0 ∙ first.busy_is) (sym load1 ∙ second.busy_is);
      mean_rounded = (omega arith, omega arith);
    }

some-of-ok :
    (a b : Report) → ◌≡◌ {A = Result ProbeError (Option Report)} (ok (some a)) (ok (some b)) → a ≡ b
some-of-ok a b h = cc

validate_record-IsReport :
    (line system telemetry : String) (r : Report)
    → validate_record line system telemetry ≡ ok (some r)
    → IsReport system telemetry r
unfolding validate_record
validate_record-IsReport line system telemetry r h =
    let (fields, _, h1) = >>=-eq-ok (parse_fields line) _ h in
    let (_, _, h2) = >>=-eq-ok (check_text fields _) _ h1 in
    let (c, _, h3) = >>=-eq-ok (read_counters fields) _ h2 in
    let (u, passed, h4) = >>=-eq-ok (check_counters c) _ h3 in
    subst (IsReport system telemetry) (some-of-ok _ _ h4)
      (report_of-IsReport system telemetry c (check_counters-Passes c u passed))

validate_records-IsReport :
    (records : List String) (system telemetry : String) (required : Bool) (r : Report)
    → validate_records records system telemetry required ≡ ok (some r)
    → (length records ≡ 1) × IsReport system telemetry r
unfolding validate_records
validate_records-IsReport [] system telemetry required r h = absurd (ground arith)
validate_records-IsReport (line ∷ []) system telemetry required r h =
    (refl, validate_record-IsReport line system telemetry r h)
validate_records-IsReport (line ∷ other ∷ more) system telemetry required r h =
    absurd (ground arith)

-- A log that passes with a report has exactly one probe record. The report is of the system and
-- telemetry mode asked for; each core's window is 19.5 to 20.5 seconds long with its idle time
-- inside it, and its load is the busy share in millionths, rounded down, so at most all of it.
-- The mean is that of the two loads, rounded down.
pub validate_control_probe-IsReport :
    (lines : List String) (system telemetry : String) (required : Bool) (r : Report)
    → validate_control_probe lines system telemetry required ≡ ok (some r)
    → (length (records_of lines) ≡ 1) × IsReport system telemetry r
unfolding validate_control_probe
validate_control_probe-IsReport lines system telemetry required r h =
    validate_records-IsReport (records_of lines) system telemetry required r h

validate_record-ne-none :
    (line system telemetry : String) → validate_record line system telemetry ≢ ok none
unfolding validate_record
validate_record-ne-none line system telemetry h = ground arith

validate_records_absent :
    (records : List String) (system telemetry : String) (required : Bool)
    → (validate_records records system telemetry required ≡ ok none)
      ↔ ((records ≡ []) × (required ≡ false))
unfolding validate_records
validate_records_absent [] system telemetry required = ground arith
validate_records_absent (line ∷ []) system telemetry required =
    (λ h. absurd (validate_record-ne-none line system telemetry h), λ h. ground arith)
validate_records_absent (line ∷ other ∷ more) system telemetry required = ground arith

-- A log passes without a report exactly when it has no probe record and none is required.
pub validate_control_probe_absent :
    (lines : List String) (system telemetry : String) (required : Bool)
    → (validate_control_probe lines system telemetry required ≡ ok none)
      ↔ ((records_of lines ≡ []) × (required ≡ false))
unfolding validate_control_probe
validate_control_probe_absent lines system telemetry required =
    validate_records_absent (records_of lines) system telemetry required
