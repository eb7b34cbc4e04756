-- ===== src/CheckSpec.antt =====
-- internal/cmd/checkspec/main.go: the check of an OpenAPI document, line by line. The regular expressions
-- are written out; the verb %q of package fmt is a parameter. A map is an association list, or the list
-- of its keys where it holds nothing but true, in the order of insertion: the problems are sorted before
-- they are returned. What os.Open and the scanner come to is an argument.
pub mod Lines
pub mod Blocks
pub mod Rounds
pub mod Consistent
use tgju_api_go.Common.{
  ℕ, ◌+◌, Bool, true, false, not, List, [], ◌∷◌, ◌++◌, map, keep, any, Option, none, some, Text,
  codes, ◌==◌, ◌&&◌, ◌||◌, within, if◌then◌else◌, is_nil, text_eq, ◌>>=◌,
}
use tgju_api_go.Strings.{trim_space, has_prefix, decimal}
use tgju_api_go.Market.{text_lt}
use tgju_api_go.Errors.{Result, ok, err}

-- the rest behind a prefix
unfoldable pub after : Text → Text → Option Text
after [] t = some t
after (c ∷ p) [] = none
after (c ∷ p) (d ∷ t) = let rest = after p t in if c == d then rest else none

-- the longest prefix of runes with a property, and the rest
unfoldable pub span : (ℕ → Bool) → Text → Text × Text
span p [] = ([], [])
span p (c ∷ t) = let rest = span p t in if p c then (c ∷ rest.0, rest.1) else ([], c ∷ t)

-- \s, [a-z], [A-Za-z] and [A-Za-z0-9_]
abbrev pub is_blank : ℕ → Bool
is_blank c = c == 9 || (c == 10 || (c == 12 || (c == 13 || c == 32)))

abbrev pub is_lower : ℕ → Bool
is_lower c = within b'a' b'z' c

abbrev pub is_letter : ℕ → Bool
is_letter c = within b'a' b'z' c || within b'A' b'Z' c

abbrev pub is_word : ℕ → Bool
is_word c = is_letter c || (within b'0' b'9' c || c == b'_')

abbrev pub is_end : Text → Bool
is_end [] = false
is_end (c ∷ t) = c == b':' && not (any (λ b. not (is_blank b)) t)

abbrev pub named : (ℕ → Bool) → (ℕ → Bool) → Text → Option Text
named first more [] = none
named first more (c ∷ t) =
    if first c && is_end (span more t).1 then some (c ∷ (span more t).0) else none

-- a regular expression of an indentation, a name, a colon and white space
unfoldable pub key_line : Text → (ℕ → Bool) → (ℕ → Bool) → Text → Option Text
unfolding after span
key_line indent first more text = after indent text >>= named first more

-- definitionRE, sectionRE and pathRE
abbrev pub definition_name : Text → Option Text
definition_name = key_line (codes "    ") is_letter is_word

abbrev pub section_name : Text → Option Text
section_name = key_line (codes "  ") is_lower is_letter

abbrev pub path_name : Text → Option Text
path_name = key_line (codes "  ") (λ c. c == b'/') (λ c. not (c == b':'))

-- one rune or more with a property, and the rest
abbrev pub some_of : (ℕ → Bool) → Text → Option (Text × Text)
some_of p t = if is_nil (span p t).0 then none else some (span p t)

-- refRE at the beginning of a text
unfoldable pub ref_at : Text → Option Text
unfolding after span
ref_at t = do
  u ← after (codes "$ref:") t
  v ← after (codes "\"#/components/") (span is_blank u).1
  kind ← some_of is_letter v
  w ← after (codes "/") kind.1
  name ← some_of is_word w
  x ← after (codes "\"") name.1
  some (kind.0 ++ (codes "/" ++ name.0))

abbrev pub and_more : Option Text → List Text → List Text
and_more none ks = ks
and_more (some k) ks = k ∷ ks

-- FindAllStringSubmatch with refRE. A match has a dollar sign at its beginning only, so the next one does
-- not begin within it.
unfoldable pub refs : Text → List Text
unfolding ref_at
refs [] = []
refs (c ∷ t) = and_more (ref_at (c ∷ t)) (refs t)

-- the variables of `check`
pub record Scan : Type 0 where
  pub defined : List Text
  pub used : List (Text × ℕ)
  pub paths : ℕ
  pub version : Text
  pub in_components : Bool
  pub section : Text
  pub line : ℕ

abbrev pub has : Text → List Text → Bool
has k ks = any (text_eq k) ks

unfoldable pub used_on : Text → List (Text × ℕ) → Option ℕ
unfolding text_eq
used_on k [] = none
used_on k ((j, n) ∷ us) = if text_eq j k then some n else used_on k us

abbrev pub use_unless : Option ℕ → Text → ℕ → List (Text × ℕ) → List (Text × ℕ)
use_unless (some n) k at us = us
use_unless none k at us = us ++ (k, at) ∷ []

-- the loop over the references of a line
unfoldable pub note_refs : ℕ → List Text → List (Text × ℕ) → List (Text × ℕ)
unfolding used_on
note_refs at [] us = us
note_refs at (k ∷ ks) us = note_refs at ks (use_unless (used_on k us) k at us)

abbrev pub define : Text → List Text → List Text
define k ks = if has k ks then ks else ks ++ k ∷ []

abbrev pub is_top : Text → Bool
is_top [] = false
is_top (c ∷ t) = not (c == b' ') && not (c == b'#')

abbrev pub text_after : Text → Option Text → Text
text_after t none = t
text_after t (some u) = u

-- the switch
unfoldable pub enter : Text → Scan → Scan
unfolding after has_prefix trim_space text_eq
enter text s =
    if has_prefix text (codes "openapi:")
    then record s { version = trim_space (text_after text (after (codes "openapi:") text)) }
    else if text_eq text (codes "components:")
    then record s { in_components = true; section = [] }
    else if is_top text
    then record s { in_components = false }
    else s

abbrev pub count_path : Option Text → Scan → Scan
count_path none s = s
count_path (some p) s = record s { paths = s.paths + 1 }

abbrev pub define_in : Option Text → Scan → Scan
define_in none s = s
define_in (some name) s =
    if is_nil s.section
    then s
    else record s { defined = define (s.section ++ (codes "/" ++ name)) s.defined }

abbrev pub component : Option Text → Option Text → Scan → Scan
component (some name) definition s = record s { section = name }
component none definition s = define_in definition s

unfoldable pub classify_line : Text → Scan → Scan
unfolding key_line
classify_line text s =
    if s.in_components
    then component (section_name text) (definition_name text) s
    else count_path (path_name text) s

abbrev pub note_line : Text → Scan → Scan
note_line text s = record s { used = note_refs s.line (refs text) s.used }

-- a round of the loop over the lines
unfoldable pub scan_line : Text → Scan → Scan
unfolding enter classify_line note_refs refs
scan_line text s = note_line text (classify_line text (enter text (record s { line = s.line + 1 })))

unfoldable pub scan_lines : List Text → Scan → Scan
unfolding scan_line
scan_lines [] s = s
scan_lines (t ∷ ts) s = scan_lines ts (scan_line t s)

abbrev pub start : Scan
start = record {
  defined = [];
  used = [];
  paths = 0;
  version = [];
  in_components = false;
  section = [];
  line = 0;
}

-- sort.Strings
unfoldable pub insert_text : Text → List Text → List Text
unfolding text_lt
insert_text t [] = t ∷ []
insert_text t (u ∷ us) = let rest = insert_text t us in if text_lt u t then u ∷ rest else t ∷ u ∷ us

unfoldable pub sort_texts : List Text → List Text
unfolding insert_text
sort_texts [] = []
sort_texts (t ∷ ts) = insert_text t (sort_texts ts)

abbrev pub dangling : Text × ℕ → Text
dangling u =
    codes "line "
    ++ (decimal u.1 ++ (codes ": $ref to #/components/" ++ (u.0 ++ codes ", which is not defined")))

abbrev pub unused : Text → Text
unused k = codes "component #/components/" ++ (k ++ codes " is defined but never referenced")

abbrev pub is_none {ℓ} : {A : Type ℓ} → Option A → Bool
is_none none = true
is_none (some a) = false

abbrev pub problem_when : Bool → Text → List Text
problem_when true p = p ∷ []
problem_when false p = []

module _ (quote : Text → Text) where
  abbrev pub version_problem : Text → Text
  version_problem v = codes "openapi version is " ++ (quote v ++ codes ", want a 3.x document")

  -- behind the loop
  unfoldable pub problems : Scan → List Text
  unfolding has_prefix used_on sort_texts decimal text_eq
  problems s = sort_texts (
      problem_when (not (has_prefix s.version (codes "3."))) (version_problem s.version)
      ++ (problem_when (s.paths == 0) (codes "the document describes no paths")
          ++ (map dangling (keep (λ u. not (has u.0 s.defined)) s.used)
              ++ map unused (keep (λ k. is_none (used_on k s.used)) s.defined))))

  -- the lines, or the error of os.Open or of the scanner
  unfoldable pub check : Result (List Text) → Result (List Text)
  unfolding problems scan_lines
  check (err e) = err e
  check (ok lines) = ok (problems (scan_lines lines start))

  abbrev pub exit_checked : Result (List Text) → ℕ
  exit_checked (err e) = 1
  exit_checked (ok []) = 0
  exit_checked (ok (p ∷ ps)) = 1

  -- the exit code of `main`, by the arguments behind the program's name
  unfoldable pub main_code : (Text → Result (List Text)) → List Text → ℕ
  unfolding check
  main_code read (path ∷ []) = exit_checked (check (read path))
  main_code read _ = 2
