-- ===== src/Issue/Admin/Rotate/Kept.antt =====
-- The address of a device through a rotation.
use vpn_suite.Prelude.{
  String, Bool, Option, none, some, List, string_eq, or_text, text_or_none, Dict, Result, ok, err,
  Holds, Holds->>=, Holds-rest, constant-Holds, ◌≡◌, refl,
}
use vpn_suite.Devices.Rows.{Device}
use vpn_suite.Config.Values.{Value}
use vpn_suite.Config.Text.Fields.{Fault}
use vpn_suite.Config.Text.Wrappers.{build_all_configs}
use vpn_suite.Issue.Key.{Discovery}
use vpn_suite.Issue.Rows.{Server, ServerProfile, Tables, Runtime, IssueSettings}
use vpn_suite.Issue.Material.{obfuscation_for, dns_of}
use vpn_suite.Issue.Checks.{IssueError, no_free_address, params_refused, config_refused, Generated}
use vpn_suite.Issue.Prepare.{Prepared, Outside, Wishes, gather, params_of, or_raise, address_for}
use vpn_suite.Issue.Admin.{AdminError, refused, refuse, asked_obfuscation}
use vpn_suite.Issue.Admin.Rotate.{Rotation, renewed}

-- An address that the device has is the one that is prepared.
abbrev pub IsKept : Option String → String → Type 0
IsKept none allowed = Unit
IsKept (some a) allowed = allowed ≡ a

address_for-IsKept :
    (kept : Option String) (params : Dict String Value) (devices : List Device)
    → Holds
        (λ allowed. IsKept kept allowed)
        (or_raise no_free_address (address_for kept params devices))
address_for-IsKept (some a) params devices = refl
address_for-IsKept none params devices = constant-Holds _ tt

refuse-Holds {ℓ κ} :
    {A : Type ℓ} (P : A → Type κ) (m : Result IssueError A) → Holds P m → Holds P (refuse m)
refuse-Holds P (ok a) h = h
refuse-Holds P (err e) h = tt

built-Holds :
    (Q : Prepared × (String × String × String) → Type 0)
    (m : Result (List Fault) (String × String × String)) (p : Prepared)
    → ((configs : String × String × String) → Q (p, configs))
    → Holds Q (elim m as (λ m. Result AdminError (Prepared × (String × String × String))) [
      | err faults ↦ err (refused (config_refused faults))
      | ok configs ↦ ok (p, configs)
    ])
built-Holds Q (ok configs) p q = q configs
built-Holds Q (err faults) p q = tt

-- The address that the device's row has, if it has one.
abbrev pub own_address : Rotation → Option String
own_address found = text_or_none (or_text found.device.allowed_ips "")

module _ (rt : Runtime) (has_runtime : Bool) (o : Outside) (settings : IssueSettings)
    (g : Generated) where
  open rt use {adapter}

  gather-IsKept :
      (wishes : Wishes) (d : Option Discovery) (obf : Option (Dict String Value)) (key : String)
      (server : Server) (profile : Option ServerProfile) (devices : List Device)
      → Holds
          (λ p. IsKept wishes.kept_address p.allowed_ips)
          (gather o settings g wishes d obf key server profile devices)
  unfolding gather
  gather-IsKept wishes d obf key server profile devices =
      let Q : Prepared → Type 0 = λ p. IsKept wishes.kept_address p.allowed_ips in
      let params = params_of profile in
      Holds-rest Q
        (or_raise params_refused (obfuscation_for settings.node_mode obf params server.amnezia_h)) _
        λ found. Holds-rest Q (or_raise params_refused (dns_of params)) _ λ dns.
          Holds->>= (λ allowed. IsKept wishes.kept_address allowed) Q
            (or_raise no_free_address (address_for wishes.kept_address params devices)) _
            (address_for-IsKept wishes.kept_address params devices) λ allowed kept. kept

  pub renewed-IsKept :
      (found : Rotation) (t : Tables adapter.State)
      → Holds
          (λ q. IsKept (own_address found) q.0.allowed_ips)
          (renewed rt has_runtime o settings g found t)
  unfolding renewed
  renewed-IsKept found t =
      let P : Prepared → Type 0 = λ p. IsKept (own_address found) p.allowed_ips in
      let Q : Prepared × (String × String × String) → Type 0 = λ q. P q.0 in
      let wishes : Wishes = record {
        client_endpoint = none;
        kept_address = own_address found;
        tunnel = "0.0.0.0/0, ::/0";
      } in
      let gathered =
        gather o settings g wishes found.discovery
          (asked_obfuscation rt has_runtime o settings found.server.id t.nodes) found.key
          found.server found.profile t.devices in
      Holds->>= P Q (refuse gathered) _
        (refuse-Holds P gathered (
          gather-IsKept wishes found.discovery
            (asked_obfuscation rt has_runtime o settings found.server.id t.nodes) found.key
            found.server found.profile t.devices))
        λ p kept. built-Holds Q (build_all_configs o.parsers p.config) p λ configs. kept
