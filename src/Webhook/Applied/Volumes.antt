-- ===== src/Webhook/Applied/Volumes.antt =====
-- The volumes of the patched pod (patchVolumes and patchSecurityContext).
use chur.Base.{
  Bool, true, false, not, ◌&&◌, some, List, [], ◌∷◌, ◌++◌, ◌≡◌, refl, sym, ap, ◌∙◌, ◌≢◌, ◌⊎◌, inl,
  inr, arith, if◌then◌else◌, append-nil, append_assoc,
}
use chur.Text.{Text, text_eq, is_empty}
use chur.Webhook.Pod.{Volume, Pod, add, at_volumes, at_volumes_end, one_volume, volume_list}
use chur.Webhook.Config.{
  Config, provider_local, provider_keeper, vol_name_secrets, vol_name_local, vol_name_keeper,
}
use chur.Webhook.Volumes.{
  volume_exists, add_volume, secrets_volume, local_volume, keeper_volume, patch_volumes,
}
use chur.Webhook.JsonPatch.{JsonPatch, apply_all, apply_all-append, apply_all-one}

-- A volume if the test holds.
abbrev volume_if : Bool → Volume → List Volume
volume_if b v = if b then v ∷ [] else []

-- The tests of patchVolumes.
abbrev pub needs_secrets : Pod → Bool
needs_secrets pod = not (volume_exists pod.volumes vol_name_secrets)

abbrev pub needs_local : Pod → Text → Bool
needs_local pod provider_name =
    text_eq provider_name provider_local && not (volume_exists pod.volumes vol_name_local)

abbrev pub needs_keeper : Pod → Config → Text → Bool
needs_keeper pod cfg provider_name =
    text_eq provider_name provider_keeper
    && not (is_empty cfg.keeper_client_cert_secret_name)
    && not (volume_exists pod.volumes vol_name_keeper)

-- The volumes that the provider needs and the pod does not have, in order.
unfoldable pub missing_volumes : Pod → Config → Text → List Volume
missing_volumes pod cfg provider_name =
    volume_if (needs_secrets pod) (secrets_volume cfg)
    ++ (volume_if (needs_local pod provider_name) (local_volume cfg)
        ++ volume_if (needs_keeper pod cfg provider_name) (keeper_volume cfg))

append-ne : (xs ys : List Volume) → xs ≢ [] → xs ++ ys ≢ []
append-ne [] ys h = λ _. h refl
append-ne (x ∷ xs) ys h = λ e. cc

add_volume-ne :
    (vs : List Volume)
    → vs ≢ []
    → (v : Volume) → add_volume vs v ≡ add at_volumes_end (one_volume v)
unfolding add_volume
add_volume-ne [] h v = absurd (h refl)
add_volume-ne (w ∷ ws) h v = refl

list_cases : (vs : List Volume) → (vs ≡ []) ⊎ (vs ≢ [])
list_cases [] = inl refl
list_cases (v ∷ vs) = inr (λ e. cc)

-- The provider is keeper, and a secret with its client certificate is configured.
abbrev pub uses_keeper_volume : Config → Text → Bool
uses_keeper_volume cfg provider_name =
    text_eq provider_name provider_keeper && not (is_empty cfg.keeper_client_cert_secret_name)

empty_ops :
    (p : Pod) (cfg : Config) (provider_name : Text)
    → p.volumes ≡ []
    → uses_keeper_volume cfg provider_name ≡ false
    → (patch_volumes p cfg provider_name
        ≡ add at_volumes (volume_list (secrets_volume cfg ∷ []))
          ∷ (if text_eq provider_name provider_local
              then add at_volumes_end (one_volume (local_volume cfg)) ∷ []
              else []))
      × (p.volumes ++ missing_volumes p cfg provider_name
          ≡ secrets_volume cfg
            ∷ volume_if (text_eq provider_name provider_local) (local_volume cfg))
unfolding patch_volumes missing_volumes volume_exists add_volume
empty_ops p cfg provider_name e h = ground arith

keeper_ops :
    (p : Pod) (cfg : Config)
    → p.volumes ≡ []
    → cfg.keeper_client_cert_secret_name ≢ []
    → patch_volumes p cfg provider_keeper
      ≡ add at_volumes (volume_list (secrets_volume cfg ∷ []))
        ∷ add at_volumes (volume_list (keeper_volume cfg ∷ []))
        ∷ []
unfolding patch_volumes volume_exists add_volume provider_keeper provider_local text_eq
keeper_ops p cfg e ne = ground arith

module _ (server : JsonPatch) where
  -- An optional volume is put at the end of a list that is there.
  append_if :
      (p : Pod) (b : Bool) (v : Volume)
      → p.volumes ≢ []
      → apply_all server p (if b then add at_volumes_end (one_volume v) ∷ [] else [])
        ≡ some (record p { volumes = p.volumes ++ volume_if b v })
  append_if p true v ne =
      apply_all-one server p (add at_volumes_end (one_volume v)) (server.add_volumes_end p v ne)
  append_if p false v ne = rw append-nil (unfold apply_all in refl)

  append_three :
      (p : Pod) (a b c : Bool) (u v w : Volume)
      → p.volumes ≢ []
      → apply_all server p (
          (if a then add at_volumes_end (one_volume u) ∷ [] else [])
          ++ ((if b then add at_volumes_end (one_volume v) ∷ [] else [])
              ++ (if c then add at_volumes_end (one_volume w) ∷ [] else [])))
        ≡ some (record p {
          volumes = p.volumes ++ (volume_if a u ++ (volume_if b v ++ volume_if c w));
        })
  append_three p a b c u v w ne =
      let p1 = record p { volumes = p.volumes ++ volume_if a u } in
      let ne1 = append-ne p.volumes (volume_if a u) ne in
      let p2 = record p { volumes = (p.volumes ++ volume_if a u) ++ volume_if b v } in
      let ne2 = append-ne (p.volumes ++ volume_if a u) (volume_if b v) ne1 in
      apply_all-append server _ _ p (append_if p a u ne)
      ∙ apply_all-append server _ _ p1 (append_if p1 b v ne1)
      ∙ append_if p2 c w ne2
      ∙ ap (λ vs. some (record p { volumes = vs }))
          (append_assoc (p.volumes ++ volume_if a u) (volume_if b v) (volume_if c w)
            ∙ append_assoc p.volumes (volume_if a u) (volume_if b v ++ volume_if c w))

  -- Where the pod has volumes, the missing ones are appended.
  with_volumes :
      (p : Pod) (cfg : Config) (provider_name : Text)
      → p.volumes ≢ []
      → apply_all server p (patch_volumes p cfg provider_name)
        ≡ some (record p { volumes = p.volumes ++ missing_volumes p cfg provider_name })
  unfolding patch_volumes missing_volumes
  with_volumes p cfg provider_name ne = simp (add_volume-ne p.volumes ne) (
      append_three p (needs_secrets p) (needs_local p provider_name)
        (needs_keeper p cfg provider_name) (secrets_volume cfg) (local_volume cfg)
        (keeper_volume cfg) ne)

  -- Where the pod has none, the list is created with the secrets volume.
  from_empty :
      (p : Pod) (b : Bool) (u v : Volume)
      → apply_all server p (
          add at_volumes (volume_list (u ∷ []))
          ∷ (if b then add at_volumes_end (one_volume v) ∷ [] else []))
        ≡ some (record p { volumes = u ∷ volume_if b v })
  from_empty p b u v =
      apply_all-append server (add at_volumes (volume_list (u ∷ [])) ∷ []) _ p
        (apply_all-one server p _ (server.add_volumes p (u ∷ [])))
      ∙ append_if (record p { volumes = u ∷ [] }) b v (λ e. cc)

  without_volumes :
      (p : Pod) (cfg : Config) (provider_name : Text)
      → p.volumes ≡ []
      → uses_keeper_volume cfg provider_name ≡ false
      → apply_all server p (patch_volumes p cfg provider_name)
        ≡ some (record p { volumes = p.volumes ++ missing_volumes p cfg provider_name })
  without_volumes p cfg provider_name e h =
      let (ops, vols) = empty_ops p cfg provider_name e h in
      ap (apply_all server p) ops
      ∙ from_empty p (text_eq provider_name provider_local) (secrets_volume cfg) (local_volume cfg)
      ∙ ap (λ vs. some (record p { volumes = vs })) (sym vols)

  -- A second list replaces the first.
  replaced :
      (p : Pod) (u v : Volume)
      → apply_all server p
          (add at_volumes (volume_list (u ∷ [])) ∷ add at_volumes (volume_list (v ∷ [])) ∷ [])
        ≡ some (record p { volumes = v ∷ [] })
  replaced p u v =
      apply_all-append server (add at_volumes (volume_list (u ∷ [])) ∷ []) _ p
        (apply_all-one server p _ (server.add_volumes p (u ∷ [])))
      ∙ apply_all-one server _ _ (server.add_volumes (record p { volumes = u ∷ [] }) (v ∷ []))

  -- If the pod has a volume, or the keeper's certificate is not mounted, the server accepts the
  -- volume patches and the pod then has its own volumes followed by the missing ones.
  pub apply-patch_volumes :
      (p : Pod) (cfg : Config) (provider_name : Text)
      → (p.volumes ≢ []) ⊎ (uses_keeper_volume cfg provider_name ≡ false)
      → apply_all server p (patch_volumes p cfg provider_name)
        ≡ some (record p { volumes = p.volumes ++ missing_volumes p cfg provider_name })
  apply-patch_volumes p cfg provider_name (inl ne) = with_volumes p cfg provider_name ne
  apply-patch_volumes p cfg provider_name (inr h) = elim (list_cases p.volumes) [
    | inl e ↦ without_volumes p cfg provider_name e h
    | inr ne ↦ with_volumes p cfg provider_name ne
  ]

  -- A pod without volumes that uses the keeper with a client certificate: the second patch replaces
  -- the list of the first, and the pod is left without the volume that its containers mount.
  pub apply-patch_volumes_lost :
      (p : Pod) (cfg : Config)
      → p.volumes ≡ []
      → cfg.keeper_client_cert_secret_name ≢ []
      → apply_all server p (patch_volumes p cfg provider_keeper)
        ≡ some (record p { volumes = keeper_volume cfg ∷ [] })
  apply-patch_volumes_lost p cfg e ne =
      ap (apply_all server p) (keeper_ops p cfg e ne)
      ∙ replaced p (secrets_volume cfg) (keeper_volume cfg)
