-- ===== src/Configure/Steps.antt =====
-- A method of network/configure.go that succeeds has called the devices without an error.
use garden_linux.Common.{
  ℕ, ◌≡◌, ◌≢◌, refl, ap, ◌∙◌, Option, none, some, Outcome, ok, err, panic, Text, codes, text_eq,
  nat_eq,
}
use garden_linux.Subnets.Address.{IpNet}
use garden_linux.Configure.{
  configure_link_error, configure_default_gw_error, loopback, container, loopback_ip, loopback_net,
  configure_loopback_intf, configure_container_intf, Devices, Found, found, missing, failed, Done,
  tt, NetworkError, Role, mtu_error, add_to_bridge_error, link_up_error, veth_pair_creation_error,
  bridge_detection_error, bridge, find_link_error, and_then, checked, configure_bridge_intf,
  configure_veth_pair, configure_host_intf, find_link,
}

err-ne-ok {ℓ κ} : {E : Type ℓ} {A : Type κ} {e : E} {a : A} → ◌≢◌ {A = Outcome E A} (err e) (ok a)
err-ne-ok h = cc

panic-ne-ok {ℓ κ} : {E : Type ℓ} {A : Type κ} {a : A} → ◌≢◌ {A = Outcome E A} panic (ok a)
panic-ne-ok h = cc

ok-injective {ℓ κ} :
    {E : Type ℓ} {A : Type κ} {a b : A} → ◌≡◌ {A = Outcome E A} (ok a) (ok b) → a ≡ b
ok-injective h = cc

module _ (d : Devices) where
  pub and_then-eq-ok :
      {A B : Type 0} (first : Done d A) (rest : A → d.System → Done d B) (t : d.System) (b : B)
      → and_then d first rest ≡ (t, ok b)
      → (s : d.System) × (a : A) × (first ≡ (s, ok a)) × (rest a s ≡ (t, ok b))
  unfolding and_then
  and_then-eq-ok (s, ok a) rest t b h = (s, a, refl, h)
  and_then-eq-ok (s, err e) rest t b h = absurd (err-ne-ok (ap (λ x. x.1) h))
  and_then-eq-ok (s, panic) rest t b h = absurd (panic-ne-ok (ap (λ x. x.1) h))

  pub checked-eq-ok :
      (wrap : Text → NetworkError d.Intf) (p : d.System × Option Text) (t : d.System)
      → checked d wrap p ≡ (t, ok tt)
      → p ≡ (t, none)
  unfolding checked
  checked-eq-ok wrap (s, none) t h = ap (λ x. (x.0, none)) h
  checked-eq-ok wrap (s, some e) t h = absurd (err-ne-ok (ap (λ x. x.1) h))

  found-eq-ok :
      (o : Found d.Intf) (wrap : Option Text → NetworkError d.Intf) (i : d.Intf) (s t : d.System)
      → ◌≡◌ {A = Done d d.Intf}
          (elim o [
            | found j ↦ (s, ok j)
            | missing ↦ (s, err (wrap none))
            | failed e ↦ (s, err (wrap (some e)))
          ])
          (t, ok i)
      → (o ≡ found i) × (s ≡ t)
  found-eq-ok (found j) wrap i s t h = (ap found (ok-injective (ap (λ x. x.1) h)), ap (λ x. x.0) h)
  found-eq-ok missing wrap i s t h = absurd (err-ne-ok (ap (λ x. x.1) h))
  found-eq-ok (failed e) wrap i s t h = absurd (err-ne-ok (ap (λ x. x.1) h))

  pub find_link-eq-ok :
      (role : Role) (name : Text) (i : d.Intf) (s t : d.System)
      → find_link d role name s ≡ (t, ok i)
      → (d.interface_by_name name s ≡ found i) × (s ≡ t)
  unfolding find_link
  find_link-eq-ok role name i s t h =
      found-eq-ok (d.interface_by_name name s) (λ cause. find_link_error cause role name) i s t h

  bridge-eq-ok :
      (o : Found d.Intf) (lost : NetworkError d.Intf) (b : d.Intf) (s t : d.System)
      → ◌≡◌ {A = Done d d.Intf}
          (elim o [
            | found j ↦
                and_then d
                  (checked d (λ e. link_up_error e j bridge) (d.set_up j s))
                  (λ _ u. (u, ok j))
            | missing ↦ (s, err lost)
            | failed e ↦ (s, err lost)
          ])
          (t, ok b)
      → (o ≡ found b) × (d.set_up b s ≡ (t, none))
  bridge-eq-ok (found j) lost b s t h =
      let (u, _, ran, rest) =
        and_then-eq-ok (checked d (λ e. link_up_error e j bridge) (d.set_up j s)) _ t b h in
      let same : j ≡ b = ok-injective (ap (λ x. x.1) rest) in
      (
        ap found same,
        rw⁻¹ same (
            checked-eq-ok (λ e. link_up_error e j bridge) (d.set_up j s) u ran
            ∙ ap (λ x. (x.0, none)) rest),
      )
  bridge-eq-ok missing lost b s t h = absurd (err-ne-ok (ap (λ x. x.1) h))
  bridge-eq-ok (failed e) lost b s t h = absurd (err-ne-ok (ap (λ x. x.1) h))

  created-eq-ok :
      (p : d.System × Outcome Text (d.Intf × d.Intf)) (wrap : Text → NetworkError d.Intf)
      (ends : d.Intf × d.Intf) (t : d.System)
      → ◌≡◌ {A = Done d (d.Intf × d.Intf)}
          (let (s, created) = p in
            elim created [ ok x ↦ (s, ok x) | err e ↦ (s, err (wrap e)) | panic ↦ (s, panic) ])
          (t, ok ends)
      → p ≡ (t, ok ends)
  created-eq-ok (s, ok x) wrap ends t h =
      ap (λ y. (y.0, ok x)) h ∙ ap (λ y. (t, ok y)) (ok-injective (ap (λ y. y.1) h))
  created-eq-ok (s, err e) wrap ends t h = absurd (err-ne-ok (ap (λ x. x.1) h))
  created-eq-ok (s, panic) wrap ends t h = absurd (panic-ne-ok (ap (λ x. x.1) h))

  pub configure_bridge_intf-eq-ok :
      (name : Text) (ip : ℕ) (subnet : IpNet) (b : d.Intf) (s t : d.System)
      → configure_bridge_intf d name ip subnet s ≡ (t, ok b)
      → (d.interface_by_name name s ≡ found b) × (d.set_up b s ≡ (t, none))
  unfolding configure_bridge_intf
  configure_bridge_intf-eq-ok name ip subnet b s t h =
      bridge-eq-ok (d.interface_by_name name s)
        (bridge_detection_error (codes "look up existing bridge") name ip subnet) b s t h

  pub configure_veth_pair-eq-ok :
      (h c : Text) (ends : d.Intf × d.Intf) (s t : d.System)
      → configure_veth_pair d h c s ≡ (t, ok ends)
      → d.create_veth h c s ≡ (t, ok ends)
  unfolding configure_veth_pair
  configure_veth_pair-eq-ok h c ends s t given =
      created-eq-ok (d.create_veth h c s) (λ e. veth_pair_creation_error e h c) ends t given

  pub configure_host_intf-eq-ok :
      (i b : d.Intf) (mtu : ℕ) (s t : d.System)
      → configure_host_intf d i b mtu s ≡ (t, ok tt)
      → (u : d.System) × (v : d.System) × (d.set_mtu i mtu s ≡ (u, none))
        × (d.add_to_bridge b i u ≡ (v, none))
        × (d.set_up i v ≡ (t, none))
  unfolding configure_host_intf
  configure_host_intf-eq-ok i b mtu s t h =
      let (u, _, first, rest) =
        and_then-eq-ok (checked d (λ e. mtu_error e i mtu) (d.set_mtu i mtu s)) _ t tt h in
      let (v, _, second, last) =
        and_then-eq-ok (checked d (λ e. add_to_bridge_error e b i) (d.add_to_bridge b i u)) _ t tt
          rest in
      (u, v, checked-eq-ok _ _ u first, checked-eq-ok _ _ v second, checked-eq-ok _ _ t last)

  pub configure_loopback_intf-eq-ok :
      (s t : d.System)
      → configure_loopback_intf d s ≡ (t, ok tt)
      → (lo : d.Intf) × (d.interface_by_name (codes "lo") s ≡ found lo)
        × (u : d.System) × (d.add_ip lo loopback_ip loopback_net s ≡ (u, none))
        × (d.set_up lo u ≡ (t, none))
  unfolding configure_loopback_intf
  configure_loopback_intf-eq-ok s t h =
      let (s1, lo, named, rest) = and_then-eq-ok (find_link d loopback (codes "lo") s) _ t tt h in
      let (is_lo, same) = find_link-eq-ok loopback (codes "lo") lo s s1 named in
      let (u, _, addressed, last) =
        and_then-eq-ok
          (checked d (λ e. configure_link_error e loopback lo loopback_ip loopback_net)
            (d.add_ip lo loopback_ip loopback_net s1))
          _ t tt rest in
      (
        lo,
        is_lo,
        u,
        ap (d.add_ip lo loopback_ip loopback_net) same
            ∙ checked-eq-ok (λ e. configure_link_error e loopback lo loopback_ip loopback_net) _ u
                addressed,
        checked-eq-ok (λ e. link_up_error e lo loopback) _ t last,
      )

  pub configure_container_intf-eq-ok :
      (name : Text) (ip gateway mtu : ℕ) (subnet : IpNet) (s t : d.System)
      → configure_container_intf d name ip gateway subnet mtu s ≡ (t, ok tt)
      → (i : d.Intf) × (u : d.System) × (v : d.System) × (w : d.System) × (d.interface_by_name name
            s
          ≡ found i)
        × (d.add_ip i ip subnet s ≡ (u, none))
        × (d.set_up i u ≡ (v, none))
        × (d.add_default_gw i gateway v ≡ (w, none))
        × (d.set_mtu i mtu w ≡ (t, none))
  unfolding configure_container_intf
  configure_container_intf-eq-ok name ip gateway mtu subnet s t h =
      let (s1, i, named, rest) = and_then-eq-ok (find_link d container name s) _ t tt h in
      let (is_i, same) = find_link-eq-ok container name i s s1 named in
      let (u, _, addressed, rest2) =
        and_then-eq-ok
          (checked d (λ e. configure_link_error e container i ip subnet) (d.add_ip i ip subnet s1))
          _ t tt rest in
      let (v, _, up, rest3) =
        and_then-eq-ok (checked d (λ e. link_up_error e i container) (d.set_up i u)) _ t tt rest2 in
      let (w, _, routed, last) =
        and_then-eq-ok
          (checked d (λ e. configure_default_gw_error e i gateway) (d.add_default_gw i gateway v)) _
          t tt rest3 in
      (
        i,
        u,
        v,
        w,
        is_i,
        ap (d.add_ip i ip subnet) same
            ∙ checked-eq-ok (λ e. configure_link_error e container i ip subnet) _ u addressed,
        checked-eq-ok (λ e. link_up_error e i container) _ v up,
        checked-eq-ok (λ e. configure_default_gw_error e i gateway) _ w routed,
        checked-eq-ok (λ e. mtu_error e i mtu) _ t last,
      )
