-- ===== src/Addresses/Tests.antt =====
-- Two devices of the default subnet.
use vpn_suite.Prelude.{String, true, none, some, [], ◌≡◌, ◌≢◌, refl}
use vpn_suite.Devices.Rows.{Device}
use vpn_suite.Addresses.Octets.{last_octet_from_allowed_ips, octet_text}
use vpn_suite.Addresses.Allocate.{allocate_next_address, used_octets, allocate_address_for_device}
use vpn_suite.Addresses.Free.{are_read, allocated_apart}

abbrev device : String → Device
device address = record {
  id = "d1";
  subscription_id = "sub1";
  issued_at = 0;
  server_id = "n1";
  public_key = "k1";
  allowed_ips = some address;
  preshared_key = none;
  revoked_at = none;
  suspended_at = none;
  expires_at = none;
  apply_status = none;
  last_applied_at = none;
  last_error = none;
  unstable_reason = none;
}

first_address :
    allocate_address_for_device (some "10.9.0.0") (some 24) [] ≡ some ("10.9.0.2/24", "10.9.0.2/32")
unfolding allocate_address_for_device
first_address = refl

default_readable : are_read "10.8.1" 2 253 ≡ true
unfolding last_octet_from_allowed_ips octet_text
default_readable = refl

allocated_apart_example : ◌≢◌ {A = String} "10.8.1.2/32" "10.8.1.3/32"
unfolding allocate_next_address used_octets
allocated_apart_example =
    allocated_apart "10.8.1" default_readable [] [] [] (device "10.8.1.2/32") "10.8.1.2/32"
      "10.8.1.3/32" refl refl refl refl
