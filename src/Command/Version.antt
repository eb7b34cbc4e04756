-- ===== src/Command/Version.antt =====
-- `version` of cmd/tgju/commands.go.
use tgju_api_go.Common.{
  not, List, [], ◌∷◌, ◌++◌, Option, none, some, Text, codes, ◌&&◌, if◌then◌else◌, is_nil, text_eq,
}
use tgju_api_go.Command.{Parsed, parse}
use tgju_api_go.Command.Output.{Output, shown, write_aligned}
use tgju_api_go.Command.Run.{Ran, with_arguments, written}

-- debug.ReadBuildInfo and package runtime
pub record BuildInfo : Type 0 where
  pub main_version : Text
  pub settings : List (Text × Text)

pub record Build : Type 0 where
  -- stamped at link time
  pub version : Text
  pub go_version : Text
  pub goos : Text
  pub goarch : Text
  pub info : Option BuildInfo

abbrev pub library_version : Text
library_version = codes "1.0.1"

abbrev pub main_version_or : Text → Option BuildInfo → Text
main_version_or v none = v
main_version_or v (some i) =
    if not (is_nil i.main_version) && not (text_eq i.main_version (codes "(devel)"))
    then i.main_version
    else v

unfoldable pub resolve_version : Build → Text
unfolding text_eq
resolve_version b = if is_nil b.version then main_version_or library_version b.info else b.version

-- what the loop over the settings appends
unfoldable pub setting_rows : List (Text × Text) → List (List Text)
unfolding text_eq
setting_rows [] = []
setting_rows ((k, v) ∷ rest) =
    let rows = setting_rows rest in
    if text_eq k (codes "vcs.revision")
    then (codes "commit" ∷ v ∷ []) ∷ rows
    else if text_eq k (codes "vcs.time")
    then (codes "built" ∷ v ∷ []) ∷ rows
    else rows

abbrev pub info_rows : Option BuildInfo → List (List Text)
info_rows none = []
info_rows (some i) = setting_rows i.settings

unfoldable pub version : (List Text → Parsed) → Build → List Text → Option (Ran Output)
unfolding parse resolve_version setting_rows write_aligned
version flags b args = with_arguments (parse flags args) λ positional. written (
    shown (
      write_aligned (
        (codes "version" ∷ resolve_version b ∷ [])
        ∷ (codes "library" ∷ library_version ∷ [])
        ∷ (codes "go" ∷ b.go_version ∷ [])
        ∷ (codes "platform" ∷ (b.goos ++ b'/' ∷ b.goarch) ∷ [])
        ∷ info_rows b.info)))
