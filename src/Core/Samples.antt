-- ===== src/Core/Samples.antt =====
-- Data for the tests: a profile, a target that satisfies it, and calls that take control of it.
use fairypam_rust_agent.Base.{
  true, false, not, none, some, List, [], ◌∷◌, Bytes, codes, beq, is_empty,
}
use fairypam_rust_agent.Core.Target.{IntegrityLevel, TargetBinding, TargetSnapshot}
use fairypam_rust_agent.Core.Profile.{
  CaptureRegion, TargetRules, Profile, ProfileContent, ProfileEnvelope, VerifiedProfile, External,
  hold, pulse,
}
use fairypam_rust_agent.Core.Profile.Validate.{to_ascii_lowercase}
use fairypam_rust_agent.Core.State.{
  Machine, SessionIdentity, LocalAuthorization, controlling, dry_run, granted, focus_lost,
}
use fairypam_rust_agent.Core.State.Run.{
  Call, started, connected, activates, locks, preflights, dry_runs, arms, begins, renews, happens,
}

abbrev pub digest : Bytes
digest =
    1 ∷ 2 ∷ 3 ∷ 4 ∷ 5 ∷ 6 ∷ 7 ∷ 8 ∷ 9 ∷ 10 ∷ 11 ∷ 12 ∷ 13 ∷ 14 ∷ 15 ∷ 16 ∷ 17 ∷ 18 ∷ 19 ∷ 20 ∷ 21
    ∷ 22 ∷ 23 ∷ 24 ∷ 25 ∷ 26 ∷ 27 ∷ 28 ∷ 29 ∷ 30 ∷ 31 ∷ 255 ∷ []

abbrev pub digest_text : Bytes
digest_text = codes "0102030405060708090a0b0c0d0e0f101112131415161718191a1b1c1d1e1fff"

abbrev pub rules : TargetRules
rules = record {
  process_names = codes "game.exe" ∷ [];
  process_path_sha256 = digest_text ∷ [];
  window_classes = codes "UnityWndClass" ∷ [];
  title_patterns = codes "My*" ∷ [];
  require_elevated = false;
  minimum_client_width = 640;
  minimum_client_height = 480;
  minimum_dpi = 96;
}

abbrev pub profile : Profile
profile = record {
  id = codes "game";
  version = codes "1.0.0";
  display_name = codes "Game";
  target = rules;
  capture_sources =
      record {
        id = codes "main";
        region = CaptureRegion.full_client;
        maximum_fps = 30;
        encodings = codes "jpeg" ∷ [];
      }
      ∷ [];
  actions = (codes "jump", pulse 32 57 false) ∷ (codes "run", hold 87 17 false) ∷ [];
}

abbrev pub content : ProfileContent
content = record { schema_version = 1; profile = profile; files = [] }

abbrev pub verified : VerifiedProfile
verified = record { content = content; content_sha256 = digest_text }

abbrev pub envelope : ProfileEnvelope
envelope = record { content = content; content_sha256 = digest_text; signature = digest }

-- One file is a profile, each text has one digest, and a signature repeats it.
abbrev pub outside : External
outside = record {
  to_lowercase = to_ascii_lowercase;
  trim = λ text. text;
  version_parses = λ text. not (is_empty text);
  path_is_absolute = λ path. false;
  path_is_plain = λ path. true;
  path_extension = λ path. none;
  envelope_from_json =
      λ bytes. elim (beq bytes (codes "signed")) [ true ↦ some envelope | false ↦ none ];
  content_to_json = λ c. some c.profile.id;
  sha256 = λ bytes. digest;
  verify = λ hash signature. beq hash signature;
}

abbrev pub session : SessionIdentity
session = record { agent_id = codes "agent"; session_id = codes "s1"; generation = 1 }

abbrev pub binding : TargetBinding
binding = record {
  profile_id = codes "game";
  profile_version = codes "1.0.0";
  process_id = 10;
  process_name = codes "Game.exe";
  process_started_at_unix_ms = 1000;
  process_path_sha256 = digest_text;
  window_handle = 77;
  window_title = codes "My Game";
  window_class = codes "UnityWndClass";
  client_rect = record { width = 1280; height = 720 };
  dpi = 96;
  integrity = IntegrityLevel.medium;
}

abbrev pub snapshot : TargetSnapshot
snapshot = record { binding = binding; foreground = true; minimized = false; capturable = true }

abbrev pub allows : LocalAuthorization
allows now = granted 500

abbrev pub in_dry_run : Machine
in_dry_run = record {
  current = dry_run;
  control_connected = true;
  active_profile = some verified;
  active_binding = some binding;
  active_session = some session;
  authorization_expires_at = none;
}

abbrev pub in_control : Machine
in_control = record {
  current = controlling;
  control_connected = true;
  active_profile = some verified;
  active_binding = some binding;
  active_session = some session;
  authorization_expires_at = some 400;
}

-- All the way to control, which is renewed and then lost with the focus.
abbrev pub takes_control : List Call
takes_control =
    started
    ∷ connected session
    ∷ activates verified
    ∷ locks binding
    ∷ preflights snapshot
    ∷ dry_runs
    ∷ arms allows 100 400
    ∷ begins 150
    ∷ []

abbrev pub whole_run : List Call
whole_run =
    started
    ∷ connected session
    ∷ activates verified
    ∷ locks binding
    ∷ preflights snapshot
    ∷ dry_runs
    ∷ arms allows 100 400
    ∷ begins 150
    ∷ renews allows 200 450
    ∷ happens focus_lost
    ∷ []
