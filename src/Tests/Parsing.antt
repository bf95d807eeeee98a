-- ===== src/Tests/Parsing.antt =====
-- The parsers at concrete command-line values.
use dm_simulator.Base.{
  true, ◌<>◌, ℕ, ◌<◌, ◌≤◌, String, ◌≡◌, ◌≢◌, ◌↔◌, refl, some, List, [], ◌∷◌, map, count, ok, err,
  system_exit, All, arith,
}
use dm_simulator.Base.Int.{ℤ, pos, negsuc, int, show_ℕ}
use dm_simulator.Base.Dict.{keys}
use dm_simulator.Text.{join, split_comma, strip}
use dm_simulator.Matrix.Policies.{policies, memory_bandwidth_bytes_per_time_by_level}
use dm_simulator.Matrix.Parse.{
  parse_csv_list, parse_seeds, parse_positive_ints, parse_nonnegative_ints, parse_probabilities,
  parse_positive_floats, parse_policies, parse_levels, parse_overlaps, overlap_names,
}
use dm_simulator.Matrix.Parse.Items.{IsItem, parse_csv_list-IsItem, parse_csv_list-join}
use dm_simulator.Matrix.Parse.Numbers.{
  parse_seeds_iff, parse_ints_iff, parse_floats_iff, IsProbability, IsPositive,
}
use dm_simulator.Matrix.Parse.Names.{AllIn, parse_levels_iff, parse_policies_iff, parse_modes_iff}
use dm_simulator.Matrix.Run.{bounded_run_name}
use dm_simulator.Matrix.Run.Names.{bounded_run_name_lem}
use dm_simulator.Matrix.Yaml.{yaml_string}
use dm_simulator.Matrix.Yaml.Quoting.{
  ends_scalar, all_inline, is_inline, read_scalar, read_scalar-yaml_string,
}
use dm_simulator.Tests.Decimal.{Decimal, decimal_floats}

spaces_and_blanks : parse_csv_list " 4, ,8,16 ," ≡ "4" ∷ "8" ∷ "16" ∷ []
unfolding parse_csv_list split_comma strip
spaces_and_blanks = refl

seeds_with_signs : parse_seeds "+1_0,-3" ≡ ok (pos 10 ∷ negsuc 2 ∷ [])
unfolding parse_seeds parse_csv_list split_comma strip int
seeds_with_signs = refl

zero_is_not_positive : parse_positive_ints "4,0" ≡ err (system_exit "Invalid positive integer '0'")
unfolding parse_positive_ints parse_csv_list split_comma strip int
zero_is_not_positive = refl

unknown_level :
    parse_levels "mild,hot" memory_bandwidth_bytes_per_time_by_level "memory bandwidth level"
    ≡ err (
        system_exit
          "Invalid memory bandwidth level value(s): hot. Expected one of: mild, moderate, severe")
unfolding parse_levels parse_csv_list split_comma strip join
unknown_level = refl

show_numbers : join "," (map show_ℕ (0 ∷ 7 ∷ 10 ∷ 4096 ∷ [])) ≡ "0,7,10,4096"
unfolding join show_ℕ
show_numbers = refl

parse_csv_list-IsItem_example : All IsItem (parse_csv_list " 4, ,8,16 ,")
parse_csv_list-IsItem_example = parse_csv_list-IsItem " 4, ,8,16 ,"

parse_csv_list-join_example :
    parse_csv_list (join "," ("completion_driven" ∷ "scheduled_bursty" ∷ []))
    ≡ "completion_driven" ∷ "scheduled_bursty" ∷ []
unfolding strip
parse_csv_list-join_example = parse_csv_list-join ("completion_driven" ∷ "scheduled_bursty" ∷ []) (
  record { filled = refl; no_comma = assumption; stripped = refl },
  (record { filled = refl; no_comma = assumption; stripped = refl }, tt),
)

abbrev sizes : List ℕ
sizes = 4 ∷ 8 ∷ []

abbrev halves : List Decimal
halves = record { millionths = 1000000 } ∷ []

abbrev names : List String
names = "lru" ∷ []

parse_ints_iff_example :
    ((parse_positive_ints "4,8" ≡ ok sizes) ↔ (
      (map int (parse_csv_list "4,8") ≡ map (λ n. some (pos n)) sizes)
      × All (λ n. 0 < n) sizes
      × (sizes ≢ [])))
    × ((parse_nonnegative_ints "4,8" ≡ ok sizes)
        ↔ ((map int (parse_csv_list "4,8") ≡ map (λ n. some (pos n)) sizes) × (sizes ≢ [])))
parse_ints_iff_example = parse_ints_iff "4,8" sizes

parse_floats_iff_example :
    ((parse_probabilities "1" "churn fraction" ≡ ok halves) ↔ (
      (map decimal_floats.of_text (parse_csv_list "1") ≡ map some halves)
      × All IsProbability halves
      × (halves ≢ [])))
    × ((parse_positive_floats "1" "churn fraction" ≡ ok halves) ↔ (
        (map decimal_floats.of_text (parse_csv_list "1") ≡ map some halves)
        × All IsPositive halves
        × (halves ≢ [])))
parse_floats_iff_example = parse_floats_iff "1" "churn fraction" halves

parse_policies_iff_example :
    (parse_policies "lru" ≡ ok names)
    ↔ ((names ≡ parse_csv_list "lru") × AllIn policies names × (names ≢ []))
parse_policies_iff_example = parse_policies_iff "lru" names

parse_levels_iff_example :
    (parse_levels "mild" memory_bandwidth_bytes_per_time_by_level "level" ≡ ok ("mild" ∷ [])) ↔ (
      (◌≡◌ {A = List String} ("mild" ∷ []) (parse_csv_list "mild"))
      × AllIn (keys memory_bandwidth_bytes_per_time_by_level) ("mild" ∷ [])
      × (◌≢◌ {A = List String} ("mild" ∷ []) []))
parse_levels_iff_example =
    parse_levels_iff "mild" memory_bandwidth_bytes_per_time_by_level "level" ("mild" ∷ [])

parse_modes_iff_example :
    (parse_overlaps "low" ≡ ok ("low" ∷ [])) × AllIn overlap_names ("low" ∷ [])
unfolding parse_csv_list split_comma strip
parse_modes_iff_example =
    ((parse_modes_iff "low" ("low" ∷ [])).0.1 (refl, assumption, λ e. cc), assumption)

bounded_run_name_lem_example :
    (count (bounded_run_name (λ s. "0123456789abcdef") "a_long_run_name" 13) ≤ 13)
    × ((bounded_run_name (λ s. "0123456789abcdef") "a_long_run_name" 13 ≡ "a_long_run_name")
        ↔ (count "a_long_run_name" ≤ 13))
bounded_run_name_lem_example =
    bounded_run_name_lem (λ s. "0123456789abcdef") "a_long_run_name" 13 (omega arith)

abbrev seeds : List ℤ
seeds = pos 10 ∷ negsuc 2 ∷ []

parse_seeds_iff_example :
    (parse_seeds "+1_0,-3" ≡ ok seeds)
    ↔ ((map int (parse_csv_list "+1_0,-3") ≡ map some seeds) × (seeds ≢ []))
parse_seeds_iff_example = parse_seeds_iff "+1_0,-3" seeds

printable : all_inline "node's run" ≡ true
unfolding all_inline is_inline
printable = refl

comment_follows : ends_scalar " # 'x'" ≡ true
unfolding ends_scalar
comment_follows = refl

read_scalar-yaml_string_example :
    read_scalar (yaml_string "node's run" <> " # 'x'") ≡ some ("node's run", " # 'x'")
read_scalar-yaml_string_example =
    read_scalar-yaml_string "node's run" " # 'x'" printable comment_follows
