-- ===== src/Core/Profile/Validate.antt =====
-- crates/fairypam-agent-core/src/profile.rs: the checks on the content of a profile.
use fairypam_rust_agent.Base.{
  ℕ, ◌+◌, ◌^◌, Bool, true, false, not, ◌&&◌, ◌||◌, Option, none, some, List, [], ◌∷◌, String, Bytes,
  beq, codes, all, is_empty, leb, ltb, ◌==◌, between, is_ascii_lowercase, is_ascii_digit,
  if◌then◌else◌,
}
use fairypam_rust_agent.Base.Sets.{contains}
use fairypam_rust_agent.Base.Int.{at_least, is_multiple_of, int_between}
use fairypam_rust_agent.Base.Result.{Result, ok, ensure, ◌>>◌}
use fairypam_rust_agent.Core.Error.{AgentError}
use fairypam_rust_agent.Core.Profile.{
  ClientPointButton, ActionDefinition, CaptureRegion, CaptureSource, TargetRules, Profile,
  ProfileFile, ProfileContent, External, hold, pulse, wheel, relative_mouse, client_point_click,
  client_point_swipe, full_client, normalized_roi, left,
}
use fairypam_rust_agent.Core.Profile.Hex.{is_sha256}

abbrev pub normalized_scale_ppm : ℕ
normalized_scale_ppm = 1_000_000

-- `u32::checked_add`.
abbrev checked_add_u32 : ℕ → ℕ → Option ℕ
checked_add_u32 a b = if ltb (a + b) (2 ^ 32) then some (a + b) else none

abbrev at_most : ℕ → Option ℕ → Bool
at_most bound none = false
at_most bound (some n) = leb n bound

unfoldable pub capture_region_is_valid : CaptureRegion → Bool
capture_region_is_valid full_client = true
capture_region_is_valid (normalized_roi x_ppm y_ppm width_ppm height_ppm) =
    ltb 0 width_ppm
    && (ltb 0 height_ppm
        && (at_most normalized_scale_ppm (checked_add_u32 x_ppm width_ppm)
            && at_most normalized_scale_ppm (checked_add_u32 y_ppm height_ppm)))

-- The bytes of an action's name, and of a profile's.
abbrev pub is_action_byte : ℕ → Bool
is_action_byte b =
    is_ascii_lowercase b || (is_ascii_digit b || (b == b'.' || (b == b'_' || b == b'-')))

unfoldable pub action_id_is_valid : Bytes → Bool
action_id_is_valid id = not (is_empty id) && all is_action_byte id

abbrev is_left : ClientPointButton → Bool
is_left left = true
is_left _ = false

unfoldable pub definition_is_valid : ActionDefinition → Bool
definition_is_valid (hold key scan_code _) = between 1 255 key && between 1 255 scan_code
definition_is_valid (pulse key scan_code _) = between 1 255 key && between 1 255 scan_code
definition_is_valid (wheel maximum_delta) =
    at_least 120 maximum_delta && is_multiple_of 120 maximum_delta
definition_is_valid (relative_mouse maximum_delta) = int_between 1 2_000 maximum_delta
definition_is_valid (client_point_click _) = true
definition_is_valid (client_point_swipe button distance duration) =
    is_left button && (between 1 normalized_scale_ppm distance && between 1 3_000 duration)

abbrev pub invalid : String → AgentError
invalid code = record { code = code }

abbrev entry_is_valid : Bytes × ActionDefinition → Bool
entry_is_valid (id, definition) = action_id_is_valid id && definition_is_valid definition

unfoldable pub validate_actions : List (Bytes × ActionDefinition) → Result AgentError (Unit {0})
unfolding action_id_is_valid definition_is_valid
validate_actions actions =
    ensure (not (is_empty actions) && all entry_is_valid actions) (invalid "profile.action_invalid")

abbrev source_is_valid : CaptureSource → Bool
unfolding capture_region_is_valid
source_is_valid source =
    between 1 120 source.maximum_fps
    && (not (is_empty source.encodings)
        && (all (λ e. beq e (codes "jpeg") || beq e (codes "png")) source.encodings
            && capture_region_is_valid source.region))

-- The walk over the sources; `ids` holds the names seen so far.
unfoldable pub sources_are_valid : List Bytes → List CaptureSource → Bool
unfolding capture_region_is_valid
sources_are_valid ids [] = true
sources_are_valid ids (source ∷ rest) =
    not (is_empty source.id)
    && (not (contains source.id ids)
        && (source_is_valid source && sources_are_valid (source.id ∷ ids) rest))

unfoldable pub validate_capture_sources : List CaptureSource → Result AgentError (Unit {0})
unfolding sources_are_valid
validate_capture_sources sources =
    ensure (not (is_empty sources) && sources_are_valid [] sources)
      (invalid "profile.capture_invalid")

-- `str::to_ascii_lowercase`.
abbrev lower_byte : ℕ → ℕ
lower_byte b = if between b'A' b'Z' b then b + 32 else b

abbrev pub to_ascii_lowercase : Bytes → Bytes
to_ascii_lowercase [] = []
to_ascii_lowercase (b ∷ bs) = lower_byte b ∷ to_ascii_lowercase bs

abbrev extension_is_allowed : Option Bytes → Bool
extension_is_allowed none = false
extension_is_allowed (some extension) = beq (to_ascii_lowercase extension) (codes "json")

abbrev is_id_byte : ℕ → Bool
is_id_byte b = is_ascii_lowercase b || (is_ascii_digit b || b == b'-')

abbrev dimensions_are_valid : TargetRules → Bool
dimensions_are_valid target =
    ltb 0 target.minimum_client_width
    && (ltb 0 target.minimum_client_height && leb 72 target.minimum_dpi)

module _ (x : External) where
  abbrev pub all_non_empty : List Bytes → Bool
  all_non_empty = all λ value. not (is_empty (x.trim value))

  unfoldable pub validate_target_rules : TargetRules → Result AgentError (Unit {0})
  unfolding is_sha256
  validate_target_rules target =
      ensure
        (not (
          is_empty target.process_names
          || (is_empty target.process_path_sha256
              || (is_empty target.window_classes
                  || (is_empty target.title_patterns
                      || (not (all_non_empty target.process_names)
                          || (not (all_non_empty target.window_classes)
                              || (not (all_non_empty target.title_patterns)
                                  || (not (all is_sha256 target.process_path_sha256)
                                      || not (dimensions_are_valid target))))))))))
        (invalid "profile.target_rules_invalid")

  unfoldable pub validate_profile_identity : Profile → Result AgentError (Unit {0})
  validate_profile_identity profile =
      let id_is_valid = not (is_empty profile.id) && all is_id_byte profile.id in
      ensure
        (not (
          not id_is_valid
          || (is_empty (x.trim profile.display_name) || not (x.version_parses profile.version))))
        (invalid "profile.schema_invalid")

  -- The loop over the files; `paths` holds the paths seen so far.
  unfoldable pub validate_files_from : List Bytes → List ProfileFile → Result AgentError (Unit {0})
  unfolding is_sha256
  validate_files_from paths [] = ok tt
  validate_files_from paths (file ∷ rest) = do
    ensure (extension_is_allowed (x.path_extension file.path))
        (invalid "profile.executable_content")
    ensure
        (not (
          not (not (x.path_is_absolute file.path) && x.path_is_plain file.path)
          || (not (is_sha256 file.sha256) || contains file.path paths)))
        (invalid "profile.schema_invalid")
    validate_files_from (file.path ∷ paths) rest

  unfoldable pub validate_files : List ProfileFile → Result AgentError (Unit {0})
  unfolding validate_files_from
  validate_files files = validate_files_from [] files

  unfoldable pub validate_content : ProfileContent → Result AgentError (Unit {0})
  unfolding validate_profile_identity validate_files validate_target_rules validate_capture_sources
      validate_actions
  validate_content content = do
    ensure (content.schema_version == 1) (invalid "profile.schema_invalid")
    validate_profile_identity content.profile
    validate_files content.files
    validate_target_rules content.profile.target
    validate_capture_sources content.profile.capture_sources
    validate_actions content.profile.actions
