-- ===== src/Core/Target.antt =====
-- crates/fairypam-agent-core/src/target.rs: the window that the agent is bound to.
use fairypam_rust_agent.Base.{ℕ, ◌≡◌, ◌↔◌, Bool, true, ◌&&◌, arith, Bytes, beq, beq_iff, ◌==◌}

pub record ClientRect : Type 0 where
  pub width : ℕ
  pub height : ℕ

pub data IntegrityLevel : Type 0 where
  unknown low medium high system : IntegrityLevel

pub record TargetBinding : Type 0 where
  pub profile_id : Bytes
  pub profile_version : Bytes
  pub process_id : ℕ
  pub process_name : Bytes
  pub process_started_at_unix_ms : ℕ
  pub process_path_sha256 : Bytes
  pub window_handle : ℕ
  pub window_title : Bytes
  pub window_class : Bytes
  pub client_rect : ClientRect
  pub dpi : ℕ
  pub integrity : IntegrityLevel

pub record TargetSnapshot : Type 0 where
  pub binding : TargetBinding
  pub foreground : Bool
  pub minimized : Bool
  pub capturable : Bool

-- The derived `PartialEq`s.
pub IntegrityLevel-discrete : Discrete IntegrityLevel
IntegrityLevel-discrete = hlevel

abbrev rank : IntegrityLevel → ℕ
rank IntegrityLevel.unknown = 0
rank IntegrityLevel.low = 1
rank IntegrityLevel.medium = 2
rank IntegrityLevel.high = 3
rank IntegrityLevel.system = 4

unfoldable pub binding_eq : TargetBinding → TargetBinding → Bool
binding_eq a b =
    beq a.profile_id b.profile_id
    && (beq a.profile_version b.profile_version
        && (a.process_id == b.process_id
            && (beq a.process_name b.process_name
                && (a.process_started_at_unix_ms == b.process_started_at_unix_ms
                    && (beq a.process_path_sha256 b.process_path_sha256
                        && (a.window_handle == b.window_handle
                            && (beq a.window_title b.window_title
                                && (beq a.window_class b.window_class
                                    && (a.client_rect.width == b.client_rect.width
                                        && (a.client_rect.height == b.client_rect.height
                                            && (a.dpi == b.dpi
                                                && rank a.integrity == rank b.integrity)))))))))))

rank-injective : (a b : IntegrityLevel) → rank a ≡ rank b → a ≡ b
rank-injective a b h = ground arith

pub binding_eq_iff : (a b : TargetBinding) → (binding_eq a b ≡ true) ↔ (a ≡ b)
unfolding binding_eq
binding_eq_iff a b = (forth, λ e. rw e (back b))
  where
    forth : binding_eq a b ≡ true → a ≡ b
    forth h = ground (
      arith,
      beq_iff a.profile_id b.profile_id,
      beq_iff a.profile_version b.profile_version,
      beq_iff a.process_name b.process_name,
      beq_iff a.process_path_sha256 b.process_path_sha256,
      beq_iff a.window_title b.window_title,
      beq_iff a.window_class b.window_class,
      rank-injective a.integrity b.integrity,
    )

    back : (c : TargetBinding) → binding_eq c c ≡ true
    back c = ground (
      arith,
      beq_iff c.profile_id c.profile_id,
      beq_iff c.profile_version c.profile_version,
      beq_iff c.process_name c.process_name,
      beq_iff c.process_path_sha256 c.process_path_sha256,
      beq_iff c.window_title c.window_title,
      beq_iff c.window_class c.window_class,
    )
