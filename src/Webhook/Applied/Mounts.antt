-- ===== src/Webhook/Applied/Mounts.antt =====
-- The mounts of the patched containers (mountToAppContainers).
use chur.Base.{
  ℕ, ◌+◌, true, false, some, List, [], ◌∷◌, ◌++◌, map, ◌≡◌, refl, sym, ap, ◌∙◌, inl, inr, arith,
  if◌then◌else◌, append_assoc, Bool-cases, length, length-append,
}
use chur.Text.{Text}
use chur.Text.Laws.{text_eq_refl}
use chur.Webhook.Pod.{VolumeMount, Container, Pod}
use chur.Webhook.Config.{vol_name_secrets}
use chur.Webhook.Containers.{
  volume_mount_exists, app_mount, add_mount, mount_from, mount_to_app_containers,
}
use chur.Webhook.JsonPatch.{JsonPatch, apply_all, apply_all-append, apply_all-one}

-- A container with the secrets volume mounted at the path: as it is where it has that mount.
unfoldable pub ensure_mount : Text → Container → Container
ensure_mount mount_path c =
    if volume_mount_exists c.volume_mounts vol_name_secrets mount_path
    then c
    else record c { volume_mounts = c.volume_mounts ++ app_mount mount_path ∷ [] }

ensure_has :
    (mount_path : Text) (c : Container)
    → volume_mount_exists c.volume_mounts vol_name_secrets mount_path ≡ true
    → ensure_mount mount_path c ≡ c
unfolding ensure_mount
ensure_has mount_path c h = rw h

ensure_lacks :
    (mount_path : Text) (c : Container)
    → volume_mount_exists c.volume_mounts vol_name_secrets mount_path ≡ false
    → ensure_mount mount_path c
      ≡ record c { volume_mounts = c.volume_mounts ++ app_mount mount_path ∷ [] }
unfolding ensure_mount
ensure_lacks mount_path c h = rw h

module _ (server : JsonPatch) (mount_path : Text) where
  add_mount-applied :
      (p : Pod) (before after : List Container) (c : Container) (ms : List VolumeMount)
      → p.containers ≡ before ++ (c ∷ after)
      → c.volume_mounts ≡ ms
      → server.apply p (add_mount (length before) ms mount_path)
        ≡ some (record p {
          containers =
              before ++ (record c { volume_mounts = ms ++ app_mount mount_path ∷ [] } ∷ after);
        })
  unfolding add_mount
  add_mount-applied p before after c [] at_c e =
      server.add_volume_mounts p before after c (app_mount mount_path ∷ []) at_c
  add_mount-applied p before after c (m ∷ ms) at_c e =
      server.add_volume_mounts_end p before after c (app_mount mount_path) at_c (λ q. cc)
      ∙ ap
          (λ x. some (record p {
            containers =
                before ++ (record c { volume_mounts = x ++ app_mount mount_path ∷ [] } ∷ after);
          }))
          e

  -- The rest of the loop, once container `c` is settled.
  settled :
      (before cs : List Container) (c : Container) (p : Pod)
      → apply_all server p (mount_from (length (before ++ c ∷ [])) cs mount_path)
        ≡ some (record p { containers = (before ++ c ∷ []) ++ map (ensure_mount mount_path) cs })
      → apply_all server p (mount_from (length before + 1) cs mount_path)
        ≡ some (record p { containers = before ++ (c ∷ map (ensure_mount mount_path) cs) })
  settled before cs c p h =
      let n : length (before ++ c ∷ []) ≡ length before + 1 =
        omega (arith, length-append before (c ∷ [])) in
      ap (λ i. apply_all server p (mount_from i cs mount_path)) (sym n)
      ∙ h
      ∙ ap (λ x. some (record p { containers = x }))
          (append_assoc before (c ∷ []) (map (ensure_mount mount_path) cs))

  apply-mount_from :
      (cs before : List Container) (p : Pod)
      → p.containers ≡ before ++ cs
      → apply_all server p (mount_from (length before) cs mount_path)
        ≡ some (record p { containers = before ++ map (ensure_mount mount_path) cs })
  unfolding mount_from
  apply-mount_from [] before p e =
      unfold apply_all in ap (λ x. some (record p { containers = x })) e
  apply-mount_from (c ∷ cs) before p e =
      elim (Bool-cases (volume_mount_exists c.volume_mounts vol_name_secrets mount_path)) [
        | inl has ↦
            rw (has, ensure_has mount_path c has)
              (settled before cs c p (
                apply-mount_from cs (before ++ c ∷ []) p
                  (e ∙ sym (append_assoc before (c ∷ []) cs))))
        | inr lacks ↦
            let c' = record c { volume_mounts = c.volume_mounts ++ app_mount mount_path ∷ [] } in
            let p' = record p { containers = before ++ (c' ∷ cs) } in
            rw (lacks, ensure_lacks mount_path c lacks)
              (apply_all-append server (add_mount (length before) c.volume_mounts mount_path ∷ []) _
                  p
                  (apply_all-one server p _
                    (add_mount-applied p before cs c c.volume_mounts e refl))
                ∙ settled before cs c' p' (
                    apply-mount_from cs (before ++ c' ∷ []) p'
                      (sym (append_assoc before (c' ∷ []) cs))))
      ]

  -- The server accepts the mount patches, and then every container has the secrets volume mounted
  -- at the path: the ones that had it are unchanged, the others get it behind their own mounts.
  pub apply-mount_to_app_containers :
      (p : Pod)
      → apply_all server p (mount_to_app_containers p.containers mount_path)
        ≡ some (record p { containers = map (ensure_mount mount_path) p.containers })
  unfolding mount_to_app_containers
  apply-mount_to_app_containers p = apply-mount_from p.containers [] p refl

mount_exists-append :
    (ms : List VolumeMount) (mount_path : Text)
    → volume_mount_exists (ms ++ app_mount mount_path ∷ []) vol_name_secrets mount_path ≡ true
unfolding volume_mount_exists app_mount
mount_exists-append [] mount_path =
    ground (arith, text_eq_refl vol_name_secrets, text_eq_refl mount_path)
mount_exists-append (m ∷ ms) mount_path = ground (arith, mount_exists-append ms mount_path)

pub ensure_mount-exists :
    (mount_path : Text) (c : Container)
    → volume_mount_exists (ensure_mount mount_path c).volume_mounts vol_name_secrets mount_path
      ≡ true
ensure_mount-exists mount_path c =
    elim (Bool-cases (volume_mount_exists c.volume_mounts vol_name_secrets mount_path)) [
      | inl has ↦ rw (ensure_has mount_path c has) has
      | inr lacks ↦
          rw (ensure_lacks mount_path c lacks) (mount_exists-append c.volume_mounts mount_path)
    ]

mount_from-done :
    (i : ℕ) (cs : List Container) (mount_path : Text)
    → mount_from i (map (ensure_mount mount_path) cs) mount_path ≡ []
unfolding mount_from
mount_from-done i [] mount_path = refl
mount_from-done i (c ∷ cs) mount_path =
    rw (ensure_mount-exists mount_path c) (mount_from-done (i + 1) cs mount_path)

-- Containers that have the mount get no patch.
pub mount_to_app_containers-done :
    (cs : List Container) (mount_path : Text)
    → mount_to_app_containers (map (ensure_mount mount_path) cs) mount_path ≡ []
unfolding mount_to_app_containers
mount_to_app_containers-done = mount_from-done 0
