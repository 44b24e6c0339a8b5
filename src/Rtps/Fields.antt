-- ===== src/Rtps/Fields.antt =====
-- The readers of single fields in reconstruct_rtps_app_samples.py.
use qos_extended_mros2_esp.Base.{String, Option, none, some, List, [], ◌∷◌, filter, head?}
use qos_extended_mros2_esp.Base.Int.{ℤ}
use qos_extended_mros2_esp.Base.Text.{split_on, nonempty, remove_char, lower}
use qos_extended_mros2_esp.Base.Number.{int_base_0}

unfoldable pub split_values : String → List String
unfolding split_on
split_values value = filter nonempty (split_on b',' value)

-- The loop of `parsed_ints`, which drops what is no integer.
unfoldable pub ints_of : List String → List ℤ
unfolding int_base_0
ints_of [] = []
ints_of (item ∷ items) =
    let rest = ints_of items in elim (int_base_0 item) [ none ↦ rest | some n ↦ n ∷ rest ]

unfoldable pub parsed_ints : String → List ℤ
unfolding split_values ints_of
parsed_ints value = ints_of (split_values value)

unfoldable pub first_int : String → Option ℤ
unfolding parsed_ints
first_int value = head? (parsed_ints value)

unfoldable pub normalize_guid : String → String
unfolding remove_char lower
normalize_guid value = lower (remove_char b':' value)

-- `endpoint_tuple`, given the two fields that its prefix selects.
unfoldable pub endpoint_tuple : String → String → Option ℤ × Option ℤ
unfolding first_int
endpoint_tuple key kind = (first_int key, first_int kind)
