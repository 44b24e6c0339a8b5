-- ===== src/Compare/Laws.antt =====
-- What a log of a run that is accepted has measured.
use qos_extended_mros2_esp.Base.{
  ℕ, ◌<◌, ◌≡◌, refl, Bool, true, false, not, ◌||◌, none, List, [], ◌∷◌, ◌==◌, string_eq, option_eq,
  nat_eq, All, append-eq-nil, arith, Bool-cases, Option-cases, inl, inr,
}
use qos_extended_mros2_esp.Base.Int.{ℤ, pos, negsuc, ltb_ℤ, leb_ℤ, int_eq}
use qos_extended_mros2_esp.Base.Dict.{lookup, insert}
use qos_extended_mros2_esp.Compare.Serial.{
  Fields, SerialError, Errors, when, joined, integer, Rtts, with_sequence, with_sample,
  samples_from,
}

-- A sample: its number below 40, and its round trip of under ten seconds.
abbrev pub IsSample : ℤ × ℤ → Type 0
IsSample (sequence, rtt_us) =
    (n : ℕ) × (sequence ≡ pos n)
    × (n < 40)
    × (m : ℕ) × (rtt_us ≡ pos m)
    × (0 < m)
    × (m < 10_000_000)

-- No number occurs twice.
abbrev pub IsDistinct : List (ℤ × ℤ) → Type 0
IsDistinct [] = Unit
IsDistinct (e ∷ es) = All (λ (f : ℤ × ℤ). (f.0 == e.0) ≡ false) es × IsDistinct es

abbrev pub IsValid : Rtts → Type 0
IsValid rtts = All IsSample rtts × IsDistinct rtts

pub joined-eq-nil : (es : List Errors) → joined es ≡ [] → All (λ (e : Errors). e ≡ []) es
unfolding joined
joined-eq-nil [] h = tt
joined-eq-nil (e ∷ es) h =
    let (this, rest) = append-eq-nil e (joined es) h in (this, joined-eq-nil es rest)

pub when-eq-nil : (b : Bool) (error : SerialError) → when b error ≡ [] → b ≡ false
unfolding when
when-eq-nil true error h = absurd (ground (arith, h))
when-eq-nil false error h = refl

pub when-not-eq-nil : (b : Bool) (error : SerialError) → when (not b) error ≡ [] → b ≡ true
unfolding when
when-not-eq-nil true error h = refl
when-not-eq-nil false error h = absurd (ground (arith, h))

in_range :
    (s r : ℤ)
    → (ltb_ℤ s (pos 0) || leb_ℤ (pos 40) s) ≡ false
    → (leb_ℤ r (pos 0) || leb_ℤ (pos 10_000_000) r) ≡ false
    → IsSample (s, r)
in_range (pos n) (pos m) h k = (n, refl, ground arith, m, refl, ground arith, ground arith)
in_range (pos n) (negsuc m) h k = absurd (ground arith)
in_range (negsuc n) r h k = absurd (ground arith)

insert_fresh-All :
    (P : ℤ × ℤ → Type 0) (s r : ℤ) (rtts : Rtts)
    → lookup s rtts ≡ none
    → P (s, r)
    → All P rtts
    → All P (insert s r rtts)
insert_fresh-All P s r [] absent p h = (p, tt)
insert_fresh-All P s r ((j, w) ∷ rtts) absent p (q, h) = elim (Bool-cases (s == j)) [
  | inl same ↦ absurd (ground (arith, rw same at absent))
  | inr other ↦ rw other (q, insert_fresh-All P s r rtts (rw other at absent) p h)
]

insert_fresh-IsDistinct :
    (s r : ℤ) (rtts : Rtts) → lookup s rtts ≡ none → IsDistinct rtts → IsDistinct (insert s r rtts)
insert_fresh-IsDistinct s r [] absent h = (tt, tt)
insert_fresh-IsDistinct s r ((j, w) ∷ rtts) absent (apart, h) = elim (Bool-cases (s == j)) [
  | inl same ↦ absurd (ground (arith, rw same at absent))
  | inr other ↦
      let later = rw other at absent in
      rw other (
        insert_fresh-All (λ f. (f.0 == j) ≡ false) s r rtts later other apart,
        insert_fresh-IsDistinct s r rtts later h,
      )
]

with_sequence-IsValid :
    (rtts : Rtts) (s r : ℤ)
    → (with_sequence rtts s r).1 ≡ []
    → (leb_ℤ r (pos 0) || leb_ℤ (pos 10_000_000) r) ≡ false
    → IsValid rtts
    → IsValid (with_sequence rtts s r).0
unfolding with_sequence
with_sequence-IsValid rtts s r none_wrong fits (samples, distinct) =
    elim (Bool-cases (ltb_ℤ s (pos 0) || leb_ℤ (pos 40) s)) [
      | inl outside ↦ absurd (ground (arith, rw outside at none_wrong))
      | inr inside ↦ elim (Option-cases (lookup s rtts)) [
        | inl absent ↦
            rw (inside, absent)
              (
                insert_fresh-All IsSample s r rtts absent (in_range s r inside fits) samples,
                insert_fresh-IsDistinct s r rtts absent distinct,
              )
        | inr (old, there) ↦ absurd (ground (arith, rw (inside, there) at none_wrong))
      ]
    ]

with_sample-IsValid :
    (final_line : ℕ) (rtts : Rtts) (sample : ℕ × Fields)
    → (with_sample final_line rtts sample).1 ≡ []
    → IsValid rtts
    → IsValid (with_sample final_line rtts sample).0
unfolding with_sample
with_sample-IsValid final_line rtts (line, fields) h valid =
    let s = (integer fields "seq").0 in
    let r = (integer fields "rtt_us").0 in
    let (_, (_, (clean, (fits, _)))) = joined-eq-nil _ h in
    with_sequence-IsValid rtts s r clean (when-eq-nil _ _ fits) valid

-- The samples that the loop collects without an error.
pub samples_from-IsValid :
    (final_line : ℕ) (rtts : Rtts) (samples : List (ℕ × Fields))
    → (samples_from final_line rtts samples).1 ≡ []
    → IsValid rtts
    → IsValid (samples_from final_line rtts samples).0
unfolding samples_from
samples_from-IsValid final_line rtts [] h valid = valid
samples_from-IsValid final_line rtts (sample ∷ samples) h valid =
    let (clean, later) = append-eq-nil (with_sample final_line rtts sample).1 _ h in
    samples_from-IsValid final_line (with_sample final_line rtts sample).0 samples later
      (with_sample-IsValid final_line rtts sample clean valid)
