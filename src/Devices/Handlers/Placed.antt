-- ===== src/Devices/Handlers/Placed.antt =====
-- What a reset and a repeated application of a peer leave on the node and in the table.
use vpn_suite.Prelude.{
  or_text, ◌⊎◌, ℕ, String, Bool, true, false, not, ◌&&◌, ◌||◌, Option, none, some, List, [], ◌∷◌,
  ◌==◌, string_eq, if◌then◌else◌, is_some, all, Result, ok, err, ◌≡◌, refl, sym, ap, ◌∙◌, subst,
  arith, inl, inr, Bool-cases, ==_refl, eq_iff,
}
use vpn_suite.Payments.Records.{update_where}
use vpn_suite.Devices.Rows.{Device, is_row}
use vpn_suite.Reconcile.Peer.{PeerConfigLike}
use vpn_suite.Reconcile.Apply.{returned}
use vpn_suite.Reconcile.Nodes.{Adapter, World}
use vpn_suite.Reconcile.Nodes.Settles.{Outcome-cases}
use vpn_suite.Migrate.Moves.{IsExact}
use vpn_suite.Devices.Handlers.{
  HandlerSettings, HttpError, node_failed, HandlerAnswer, done, accepted, degraded, revoked,
  find_device, revoke_row, forced, reset_found, reset_device, stored_psk, synced_config, reapply,
  sync_device_peer,
}

-- Every row of the device is revoked.
abbrev pub is_gone : String → List Device → Bool
is_gone id devices = all (λ d. not (is_row id d) || is_some d.revoked_at) devices

revoked-is_gone :
    (id : String) (now : ℕ) (ds : List Device)
    → is_gone id (update_where (is_row id) (revoked now) ds) ≡ true
revoked-is_gone id now [] = refl
revoked-is_gone id now (d ∷ ds) = ground (arith, revoked-is_gone id now ds)

dropped :
    (node key : String) (q : Option PeerConfigLike)
    → (if node == node && key == key then none else q) ≡ none
dropped node key q = rw (==_refl node, ==_refl key) refl

held :
    (node key : String) (p : PeerConfigLike) (q : Option PeerConfigLike)
    → (if node == node && key == key then some p else q) ≡ some p
held node key p q = rw (==_refl node, ==_refl key) refl

-- The peer that a repeated application is to leave.
abbrev pub applied_again : String → Device → PeerConfigLike
applied_again psk d = record {
  public_key = d.public_key;
  allowed_ips = elim d.allowed_ips [
    | none ↦ some "10.8.1.2/32"
    | some ips ↦ some (if ips == "" then "10.8.1.2/32" else ips)
  ];
  preshared_key = some psk;
  persistent_keepalive = 25;
}

same_peer : (psk : String) (d : Device) → synced_config psk d ≡ applied_again psk d
same_peer psk d = λ i. record {
  public_key = d.public_key;
  allowed_ips = same_ips d.allowed_ips i;
  preshared_key = some psk;
  persistent_keepalive = 25;
}
  where
    same_ips :
        (ips : Option String)
        → some (or_text ips "10.8.1.2/32") ≡ (elim ips [
          | none ↦ some "10.8.1.2/32"
          | some ips ↦ some (if ips == "" then "10.8.1.2/32" else ips)
        ])
    same_ips none = refl
    same_ips (some ips) = refl

-- The device's own key, or its server's where it has none.
stored_psk-chosen :
    (theirs : Option String) (psk : String) (d : Device)
    → (psk == "") ≡ false
    → (d.preshared_key ≡ some psk)
      ⊎ (((d.preshared_key ≡ none) ⊎ (d.preshared_key ≡ some "")) × (theirs ≡ some psk))
    → stored_psk theirs d ≡ some psk
stored_psk-chosen theirs psk d full (inl own) = rw own (ground arith)
stored_psk-chosen theirs psk d full (inr (inl nothing, other)) = rw (nothing, other) (ground arith)
stored_psk-chosen theirs psk d full (inr (inr blank, other)) = rw (blank, other) (ground arith)

module _ (a : Adapter) (x : IsExact a) (settings : HandlerSettings) (now : ℕ) where
  -- What each answer of a reset promises: done, that the node has no peer under the key and the
  -- device is revoked; degraded, that it is revoked and the reset was forced; an error, that the
  -- table is as it was and the reset was not forced.
  abbrev pub IsReset :
      Bool → Device → World a.State → Result HttpError HandlerAnswer → World a.State → Type 0
  IsReset force d w (ok done) w' =
      (x.config_at w'.nodes d.server_id d.public_key ≡ none) × (is_gone d.id w'.devices ≡ true)
  IsReset force d w (ok accepted) w' = ⊥
  IsReset force d w (ok degraded) w' =
      (forced a settings now force ≡ true) × (is_gone d.id w'.devices ≡ true)
  IsReset force d w (err e) w' = (forced a settings now force ≡ false) × (w'.devices ≡ w.devices)

  reset_found-IsReset :
      (force : Bool) (d : Device) (w : World a.State)
      → settings.node_mode ≡ "real"
      → IsReset force d w
          (reset_found a settings now force d w).0
          (reset_found a settings now force d w).1
  unfolding reset_found
  reset_found-IsReset force d w real =
      let removed = a.remove_peer d.server_id d.public_key w.nodes in
      let is_real : (settings.node_mode == "real") ≡ true =
        (eq_iff settings.node_mode "real").1 real in
      let w' : World a.State = record w { nodes = removed.1 } in
      let Family : Result HttpError HandlerAnswer × World a.State → Type 0 =
        λ y. IsReset force d w y.0 y.1 in
      elim (Outcome-cases removed.0) [
        | inl returns ↦
            let ends : reset_found a settings now force d w
                ≡ (ok done, revoke_row a settings now d.id w') =
              ground arith in
            subst Family (sym ends) (
              x.remove_peer_drops d.server_id d.public_key w.nodes returns d.server_id d.public_key
                  ∙ dropped d.server_id d.public_key _,
              revoked-is_gone d.id now w.devices,
            )
        | inr (e, raises) ↦ elim (Bool-cases (forced a settings now force)) [
          | inl by_force ↦
              let ends : reset_found a settings now force d w
                  ≡ (ok degraded, revoke_row a settings now d.id w') =
                ground arith in
              subst Family (sym ends) (by_force, revoked-is_gone d.id now w.devices)
          | inr unforced ↦
              let ends : reset_found a settings now force d w
                  ≡ (err (node_failed "NODE_REMOVE_FAILED"), w') =
                ground arith in
              subst Family (sym ends) (unforced, refl)
        ]
      ]

  -- In the mode `real`, a reset of a device that is not revoked answers what is true: done, that the
  -- device's node has no peer under its key and every row of the device is revoked; degraded, that
  -- the row is revoked although the node refused, which the reset was forced to; an error, that it
  -- was not forced, and the table is as it was. The adapter does what it says.
  pub reset_device-IsReset :
      (id : String) (force : Bool) (d : Device) (w : World a.State)
      → settings.node_mode ≡ "real"
      → find_device id w.devices ≡ some d
      → d.revoked_at ≡ none
      → IsReset force d w
          (reset_device a settings now id force w).0
          (reset_device a settings now id force w).1
  unfolding reset_device
  reset_device-IsReset id force d w real found standing =
      let Family : Result HttpError HandlerAnswer × World a.State → Type 0 =
        λ y. IsReset force d w y.0 y.1 in
      let ends : reset_device a settings now id force w ≡ reset_found a settings now force d w =
        ground arith in
      subst Family (sym ends) (reset_found-IsReset force d w real)

  reapply-config_at :
      (psk : String) (d : Device) (w w' : World a.State)
      → reapply a settings now psk d w ≡ (ok done, w')
      → (x.config_at w'.nodes d.server_id d.public_key ≡ some (synced_config psk d))
        × (w'.devices ≡ w.devices)
  unfolding reapply
  reapply-config_at psk d w w' ran =
      let s' = (a.remove_peer d.server_id d.public_key w.nodes).1 in
      let config = synced_config psk d in
      elim (Outcome-cases (a.add_peer d.server_id config s').0) [
        | inr (e, raises) ↦ absurd (ground arith)
        | inl returns ↦
            let made : World a.State = record w { nodes = (a.add_peer d.server_id config s').1 } in
            let same : w' ≡ made = ground arith in
            (
              ap (λ (v : World a.State). x.config_at v.nodes d.server_id d.public_key) same
                  ∙ x.add_peer_sets d.server_id config s' returns d.server_id d.public_key
                  ∙ held d.server_id d.public_key config _,
              ap (λ (v : World a.State). v.devices) same,
            )
      ]

  -- A repeated application to a device that is not revoked, a suspended one too, whose own preshared
  -- key, or its server's where it has none, is not empty, returns where the adapter's addition does;
  -- the removal may raise. The device's node then has the device's key with the address of its row
  -- (10.8.1.2/32 where it has none), that preshared key and a keepalive of 25, and no row is changed.
  -- The environment is not production, nodes are real and not found by agents, and the adapter does
  -- what it says.
  pub sync_device_peer-config_at :
      (server_psk : String → Option String) (id psk : String) (d : Device) (w : World a.State)
      → (settings.environment == "production") ≡ false
      → settings.node_mode ≡ "real"
      → (settings.node_discovery == "agent") ≡ false
      → find_device id w.devices ≡ some d
      → d.revoked_at ≡ none
      → (psk == "") ≡ false
      → (d.preshared_key ≡ some psk)
        ⊎ (((d.preshared_key ≡ none) ⊎ (d.preshared_key ≡ some ""))
            × (server_psk d.server_id ≡ some psk))
      → (a.add_peer d.server_id
          (applied_again psk d)
          (a.remove_peer d.server_id d.public_key w.nodes).1).0
        ≡ returned
      → let (answer, w') = sync_device_peer a settings now server_psk id w in
        (answer ≡ ok done)
        × (x.config_at w'.nodes d.server_id d.public_key ≡ some (applied_again psk d))
        × (w'.devices ≡ w.devices)
  unfolding sync_device_peer reapply
  sync_device_peer-config_at server_psk id psk d w open_to real direct found standing full source
        returns =
      let keyed = stored_psk-chosen (server_psk d.server_id) psk d full source in
      let s' = (a.remove_peer d.server_id d.public_key w.nodes).1 in
      let made : World a.State = record w {
        nodes = (a.add_peer d.server_id (synced_config psk d) s').1;
      } in
      let added : (a.add_peer d.server_id (synced_config psk d) s').0 ≡ returned =
        ap (λ (c : PeerConfigLike). (a.add_peer d.server_id c s').0) (same_peer psk d) ∙ returns in
      let put : reapply a settings now psk d w ≡ (ok done, made) = ground arith in
      let reaches : sync_device_peer a settings now server_psk id w
          ≡ reapply a settings now psk d w =
        rw (open_to, real, direct, found, standing, keyed) refl in
      let applies = reaches ∙ put in
      let (holds, kept) = reapply-config_at psk d w made put in
      rw applies (refl, holds ∙ ap (λ (c : PeerConfigLike). some c) (same_peer psk d), kept)
