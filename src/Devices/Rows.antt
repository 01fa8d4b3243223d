-- ===== src/Devices/Rows.antt =====
-- The columns of a device (backend/app/models/device.py) that the tasks and the rounds read.
use vpn_suite.Prelude.{ℕ, String, Bool, false, Option, none, some, ◌==◌, string_eq}

pub record Device : Type 0 where
  pub id : String
  pub subscription_id : String
  pub issued_at : ℕ
  pub server_id : String
  pub public_key : String
  pub allowed_ips : Option String
  pub preshared_key : Option String
  pub revoked_at : Option ℕ
  pub suspended_at : Option ℕ
  pub expires_at : Option ℕ
  pub apply_status : Option String
  pub last_applied_at : Option ℕ
  pub last_error : Option String
  pub unstable_reason : Option String

-- `Device.apply_status == status`, which a null column does not satisfy.
unfoldable pub has_status : String → Device → Bool
has_status status d = elim d.apply_status [ none ↦ false | some s ↦ s == status ]

-- `Device.id == id`
abbrev pub is_row : String → Device → Bool
is_row id d = d.id == id
