-- ===== src/Config/Tests.antt =====
-- `load` on concrete environments.
use pgstorm.Prelude.{
  pos, negsuc, String, ◌≡◌, refl, atoi, some, none, parse_bool, true, ok, if◌then◌else◌, string_eq,
}
use pgstorm.Config.{Env, load, read_config, negative_duration}
use pgstorm.Config.Valid.{IsValid, Describes, load-iff_IsValid, load-Describes}

abbrev empty_env : Env
empty_env _ = ""

-- An environment that sets one variable.
abbrev only : String → String → Env
only k v x = if string_eq.beq x k then v else ""

atoi_values :
    (atoi "-42" ≡ some (negsuc 41))
    × (atoi "+7" ≡ some (pos 7))
    × (atoi "1_0" ≡ none)
    × (atoi "9223372036854775808" ≡ none)
unfolding atoi
atoi_values = (refl, refl, refl, refl)

parse_bool_values : (parse_bool "T" ≡ some true) × (parse_bool "yes" ≡ none)
unfolding parse_bool
parse_bool_values = (refl, refl)

load_defaults : load empty_env ≡ ok (read_config empty_env)
unfolding load read_config
load_defaults = refl

-- A malformed number is as good as none.
workers_typo : load (only "WORKERS" "twenty") ≡ load empty_env
unfolding load read_config atoi
workers_typo = refl

load-iff_IsValid_example : IsValid (read_config empty_env)
load-iff_IsValid_example = ((load-iff_IsValid empty_env (read_config empty_env)).0 load_defaults).1

load-Describes_example : Describes (only "RUN_DURATION_SECS" "-1") (negative_duration (negsuc 0))
unfolding load read_config atoi
load-Describes_example =
    load-Describes (only "RUN_DURATION_SECS" "-1") (negative_duration (negsuc 0)) refl
