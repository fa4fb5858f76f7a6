-- ===== src/Workload/Ops/Statements/Reading.antt =====
-- The statements and the schema of the `oltp-jsonb` profile as texts: a reading of both, word by
-- word, that is written for these statements and refuses what it does not know.
use pgstorm.Prelude.{
  ℕ, ◌+◌, Bool, true, false, ◌||◌, ◌&&◌, String, codes, Option, none, some, List, [], ◌∷◌, ◌++◌,
  map, if◌then◌else◌, ◌==◌, leb,
}
use mathlib.Core.List.{reverse}

-- The types of columns, and that of a number of rows.
pub data SqlType : Type 0 where
  uuid_type : SqlType
  text_type : SqlType
  jsonb_type : SqlType
  inet_type : SqlType
  time_type : SqlType
  count_type : SqlType

abbrev pub Word : Type 0
Word = List ℕ

abbrev same : Word → Word → Bool
same [] [] = true
same [] (d ∷ v) = false
same (c ∷ w) [] = false
same (c ∷ w) (d ∷ v) = (c == d) && same w v

abbrev is : String → Word → Bool
is s w = same (codes s) w

-- White space, commas and parentheses end a word.
abbrev ends : ℕ → Bool
ends c = leb c 32 || (c == b',') || (c == b'(') || (c == b')')

-- The words of a text; `acc` is the one that has begun, its last character first.
unfoldable pub words : Word → Word → List Word
words [] [] = []
words (a ∷ acc) [] = reverse (a ∷ acc) ∷ []
words [] (c ∷ s) = elim (ends c) [ true ↦ words [] s | false ↦ words (c ∷ []) s ]
words (a ∷ acc) (c ∷ s) = elim (ends c) [
  | true ↦ reverse (a ∷ acc) ∷ words [] s
  | false ↦ words (c ∷ a ∷ acc) s
]

abbrev pub words_of : String → List Word
words_of s = words [] (codes s)

-- The type that a word names.
type_named : Word → Option SqlType
type_named w =
    if is "UUID" w
    then some uuid_type
    else if is "TEXT" w
    then some text_type
    else if is "JSONB" w
    then some jsonb_type
    else if is "INET" w
    then some inet_type
    else if is "TIMESTAMPTZ" w
    then some time_type
    else none

-- The type behind a column's name, in the words of a table's columns.
column_in : Word → List Word → Option SqlType
unfolding type_named
column_in c [] = none
column_in c (w ∷ []) = none
column_in c (w ∷ v ∷ ws) = elim (same c w) [ true ↦ type_named v | false ↦ column_in c (v ∷ ws) ]

-- "CREATE TABLE IF NOT EXISTS t", and its columns.
column_of : List String → Word → Word → Option SqlType
unfolding words column_in type_named
column_of [] t c = none
column_of (ddl ∷ ddls) t c = elim (words_of ddl) [
  | _ ∷ _ ∷ _ ∷ _ ∷ _ ∷ u ∷ ws ↦ if same t u then column_in c ws else column_of ddls t c
  | _ ↦ none
]

-- The word that follows the first of those that pass the test.
after_first : (Word → Bool) → List Word → Word
after_first p [] = []
after_first p (w ∷ []) = []
after_first p (w ∷ v ∷ ws) = elim (p w) [ true ↦ v | false ↦ after_first p (v ∷ ws) ]

-- The table with that alias.
aliased : Word → List Word → Word
aliased a [] = []
aliased a (w ∷ []) = []
aliased a (w ∷ v ∷ []) = []
aliased a (w ∷ v ∷ u ∷ ws) = elim ((is "FROM" w || is "JOIN" w) && same a u) [
  | true ↦ v
  | false ↦ aliased a (v ∷ u ∷ ws)
]

-- What stands before the dot of a name, if it has one, and what stands behind it.
qualified : Word → Word → Word × Word
qualified acc [] = ([], reverse acc)
qualified acc (c ∷ w) = elim (c == b'.') [ true ↦ (reverse acc, w) | false ↦ qualified (c ∷ acc) w ]

-- The table of a name with that alias; one without is of the statement's first table.
table_of : List Word → Word → Word
unfolding after_first aliased
table_of ws [] = after_first (λ w. is "INTO" w || is "UPDATE" w || is "FROM" w) ws
table_of ws (c ∷ w) = aliased (c ∷ w) ws

-- The type of a column of the statement.
type_of : List String → List Word → Word → Option SqlType
unfolding qualified column_of table_of
type_of ddls ws name = let (alias, c) = qualified [] name in column_of ddls (table_of ws alias) c

-- "$1", or "$1::inet".
is_param : ℕ → Word → Bool
is_param i w = let p : Word = b'$' ∷ (b'0' + i) ∷ [] in same p w || same (p ++ codes "::inet") w

-- The column or the clause that a parameter is compared with, assigned to or given to.
bound_by : List String → List Word → ℕ → Word → Word → List Word → Option SqlType
unfolding is_param type_of
bound_by ddls all i p q [] = none
bound_by ddls all i p q (w ∷ ws) = elim (is_param i w) [
  | true ↦
      if is "LIMIT" q
      then some count_type
      else if is "=" q || is ">=" q || is "<=" q
      then type_of ddls all p
      else none
  | false ↦ bound_by ddls all i q w ws
]

-- The same, for the columns and the values of an INSERT.
paired : List String → List Word → ℕ → List Word → List Word → Option SqlType
unfolding is_param type_of
paired ddls all i (c ∷ cs) (v ∷ vs) = elim (is_param i v) [
  | true ↦ type_of ddls all c
  | false ↦ paired ddls all i cs vs
]
paired ddls all i cs vs = none

behind : String → List Word → List Word
behind s [] = []
behind s (w ∷ ws) = elim (is s w) [ true ↦ ws | false ↦ behind s ws ]

before_word : String → List Word → List Word
before_word s [] = []
before_word s (w ∷ ws) = elim (is s w) [ true ↦ [] | false ↦ w ∷ before_word s ws ]

paired_in : List String → List Word → ℕ → List Word → Option SqlType
unfolding paired before_word behind
paired_in ddls all i (_ ∷ _ ∷ cs) = paired ddls all i (before_word "VALUES" cs) (behind "VALUES" cs)
paired_in ddls all i ws = none

-- The type that a statement needs of its parameter of that number.
unfoldable pub param_type : List String → List Word → ℕ → Option SqlType
unfolding paired_in bound_by words
param_type ddls [] i = none
param_type ddls (w ∷ ws) i =
    if is "INSERT" w then paired_in ddls ws i ws else bound_by ddls (w ∷ ws) i [] [] (w ∷ ws)

-- The selected columns, without the names that they are given.
unnamed : List Word → List Word
unnamed [] = []
unnamed (c ∷ []) = c ∷ []
unnamed (c ∷ w ∷ []) = c ∷ w ∷ []
unnamed (c ∷ w ∷ n ∷ ws) = elim (is "as" w) [
  | true ↦ c ∷ unnamed ws
  | false ↦ c ∷ unnamed (w ∷ n ∷ ws)
]

unfoldable pub selected_types : List String → List Word → List (Option SqlType)
unfolding type_of unnamed before_word words
selected_types ddls [] = []
selected_types ddls (w ∷ ws) =
    if is "SELECT" w then map (type_of ddls ws) (unnamed (before_word "FROM" ws)) else []
