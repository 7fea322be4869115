-- ===== src/Core/Profile.antt =====
-- crates/fairypam-agent-core/src/profile.rs: the data of a signed profile.
pub mod Hex
pub mod Validate
pub mod Verify
use fairypam_rust_agent.Base.{ℕ, Bool, List, Option, Bytes}
use fairypam_rust_agent.Base.Int.{ℤ}

pub data ClientPointButton : Type 0 where
  left right middle x1 x2 : ClientPointButton

-- The first two numbers of a key are its virtual key and its physical scan code; the flag says
-- whether the scan code is extended.
pub data ActionDefinition : Type 0 where
  hold : (maa_virtual_key physical_scan_code : ℕ) (extended : Bool) → ActionDefinition
  pulse : (maa_virtual_key physical_scan_code : ℕ) (extended : Bool) → ActionDefinition
  wheel : (maximum_delta : ℤ) → ActionDefinition
  relative_mouse : (maximum_delta : ℤ) → ActionDefinition
  client_point_click : (button : ClientPointButton) → ActionDefinition
  client_point_swipe :
      (button : ClientPointButton) (maximum_distance_ppm maximum_duration_ms : ℕ) → ActionDefinition

pub data CaptureRegion : Type 0 where
  full_client : CaptureRegion
  normalized_roi : (x_ppm y_ppm width_ppm height_ppm : ℕ) → CaptureRegion

pub record CaptureSource : Type 0 where
  pub id : Bytes
  pub region : CaptureRegion
  pub maximum_fps : ℕ
  pub encodings : List Bytes

pub record TargetRules : Type 0 where
  pub process_names : List Bytes
  pub process_path_sha256 : List Bytes
  pub window_classes : List Bytes
  pub title_patterns : List Bytes
  pub require_elevated : Bool
  pub minimum_client_width : ℕ
  pub minimum_client_height : ℕ
  pub minimum_dpi : ℕ

-- `actions` is a `BTreeMap`: ascending by name.
pub record Profile : Type 0 where
  pub id : Bytes
  pub version : Bytes
  pub display_name : Bytes
  pub target : TargetRules
  pub capture_sources : List CaptureSource
  pub actions : List (Bytes × ActionDefinition)

pub record ProfileFile : Type 0 where
  pub path : Bytes
  pub sha256 : Bytes

pub record ProfileContent : Type 0 where
  pub schema_version : ℕ
  pub profile : Profile
  pub files : List ProfileFile

pub record ProfileEnvelope : Type 0 where
  pub content : ProfileContent
  pub content_sha256 : Bytes
  pub signature : Bytes

-- What `verify_profile` returns, and nothing else builds.
pub record VerifiedProfile : Type 0 where
  pub content : ProfileContent
  pub content_sha256 : Bytes

abbrev pub profile_of : VerifiedProfile → Profile
profile_of v = v.content.profile

-- What the code takes from elsewhere: Unicode text, semantic versions, file paths, JSON, SHA-256
-- and the check of a signature. `path_is_plain` says that each component of the path is a plain
-- name or the current directory.
pub record External : Type 0 where
  pub to_lowercase : Bytes → Bytes
  pub trim : Bytes → Bytes
  pub version_parses : Bytes → Bool
  pub path_is_absolute : Bytes → Bool
  pub path_is_plain : Bytes → Bool
  pub path_extension : Bytes → Option Bytes
  pub envelope_from_json : Bytes → Option ProfileEnvelope
  pub content_to_json : ProfileContent → Option Bytes
  pub sha256 : Bytes → Bytes
  pub verify : Bytes → Bytes → Bool
