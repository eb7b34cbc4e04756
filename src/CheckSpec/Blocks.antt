-- ===== src/CheckSpec/Blocks.antt =====
-- internal/cmd/checkspec/main.go. What a document says of itself, by the lines in front of each
-- line. Those in front of a line are in reverse order.
use tgju_api_go.Common.{
  Bool, true, false, not, List, [], ◌∷◌, ◌++◌, Option, none, some, Text, codes, ◌&&◌, ◌||◌,
  if◌then◌else◌, is_nil, text_eq,
}
use tgju_api_go.Strings.{has_prefix, trim_space}
use tgju_api_go.CheckSpec.{after, is_top, text_after, section_name, definition_name, path_name}

abbrev pub names_version : Text → Bool
names_version t = has_prefix t (codes "openapi:")

abbrev pub opens : Text → Bool
opens t = text_eq t (codes "components:")

-- whether the last line that begins a block, the version's aside, is that of the components
abbrev pub is_inside : List Text → Bool
is_inside [] = false
is_inside (t ∷ before) =
    if names_version t
    then is_inside before
    else if opens t
    then true
    else if is_top t
    then false
    else is_inside before

abbrev pub section_or : Option Text → Text → Text
section_or none section = section
section_or (some name) section = name

-- the section that was named last, behind the beginning of the block
abbrev pub section_at : List Text → Text
section_at [] = []
section_at (t ∷ before) =
    section_or (section_name t) (if not (names_version t) && opens t then [] else section_at before)

-- the version is what the last line with it says
abbrev pub version_at : List Text → Text
version_at [] = []
version_at (t ∷ before) =
    if names_version t
    then trim_space (text_after t (after (codes "openapi:") t))
    else version_at before

-- the path that the first of the lines names, outside of the components
abbrev pub path_at : List Text → Option Text
path_at [] = none
path_at (t ∷ before) = if is_inside (t ∷ before) then none else path_name t

abbrev pub defined_by : Text → Option Text → Option Text
defined_by section none = none
defined_by section (some name) =
    if is_nil section then none else some (section ++ (codes "/" ++ name))

abbrev pub unless_section : Option Text → Option Text → Option Text
unless_section none o = o
unless_section (some name) o = none

-- the component that the first of the lines defines, in its section
abbrev pub component_at : List Text → Option Text
component_at [] = none
component_at (t ∷ before) =
    if is_inside (t ∷ before)
    then unless_section (section_name t) (defined_by (section_at (t ∷ before)) (definition_name t))
    else none

-- the lines in reverse order, in front of which those of `before` stand
abbrev pub onto : List Text → List Text → List Text
onto before [] = before
onto before (t ∷ ts) = onto (t ∷ before) ts

abbrev pub is_found : Option Text → Bool
is_found none = false
is_found (some p) = true

-- a path stands in one of the lines
abbrev pub has_path : List Text → List Text → Bool
has_path before [] = false
has_path before (t ∷ ts) = is_found (path_at (t ∷ before)) || has_path (t ∷ before) ts

abbrev pub is_key : Text → Option Text → Bool
is_key k none = false
is_key k (some j) = text_eq k j

-- the component is defined in one of the lines
abbrev pub defines : Text → List Text → List Text → Bool
defines k before [] = false
defines k before (t ∷ ts) = is_key k (component_at (t ∷ before)) || defines k (t ∷ before) ts
