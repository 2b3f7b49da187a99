-- ===== src/Webhook/JsonPatch.antt =====
-- The API server applies the patch (RFC 6902): that code is not the program's. It is an interface
-- here, with what the standard says of an `add` at the pointers that the mutator writes. An add at
-- `/-` needs a list that is there: an empty list of a Pod is left out of its JSON.
use chur.Base.{
  Option, some, List, [], ◌∷◌, ◌++◌, ◌≡◌, ◌≢◌, inl, inr, length, bind_option, Option-cases,
}
use chur.Base.Int.{ℤ}
use chur.Webhook.Pod.{
  Volume, VolumeMount, Container, Pod, PodSecurityContext, PatchOperation, add, at_security_context,
  at_fs_group, at_volumes, at_volumes_end, at_init_containers, at_init_containers_end,
  at_volume_mounts, at_volume_mounts_end, pod_security_context, group, volume_list, one_volume,
  container_list, one_container, mount_list, one_mount,
}

pub record JsonPatch : Type 0 where
  -- `none` is an error of the server.
  pub apply : Pod → PatchOperation → Option Pod
  pub add_security_context :
      (p : Pod) (sc : PodSecurityContext)
      → apply p (add at_security_context (pod_security_context sc))
        ≡ some (record p { security_context = some sc })
  pub add_fs_group :
      (p : Pod) (sc : PodSecurityContext) (g : ℤ)
      → p.security_context ≡ some sc
      → apply p (add at_fs_group (group g))
        ≡ some (record p { security_context = some (record sc { fs_group = some g }) })
  pub add_volumes :
      (p : Pod) (vs : List Volume)
      → apply p (add at_volumes (volume_list vs)) ≡ some (record p { volumes = vs })
  pub add_volumes_end :
      (p : Pod) (v : Volume)
      → p.volumes ≢ []
      → apply p (add at_volumes_end (one_volume v))
        ≡ some (record p { volumes = p.volumes ++ v ∷ [] })
  pub add_init_containers :
      (p : Pod) (cs : List Container)
      → apply p (add at_init_containers (container_list cs))
        ≡ some (record p { init_containers = cs })
  pub add_init_containers_end :
      (p : Pod) (c : Container)
      → p.init_containers ≢ []
      → apply p (add at_init_containers_end (one_container c))
        ≡ some (record p { init_containers = p.init_containers ++ c ∷ [] })
  pub add_volume_mounts :
      (p : Pod) (before after : List Container) (c : Container) (ms : List VolumeMount)
      → p.containers ≡ before ++ (c ∷ after)
      → apply p (add (at_volume_mounts (length before)) (mount_list ms))
        ≡ some (record p { containers = before ++ (record c { volume_mounts = ms } ∷ after) })
  pub add_volume_mounts_end :
      (p : Pod) (before after : List Container) (c : Container) (m : VolumeMount)
      → p.containers ≡ before ++ (c ∷ after)
      → c.volume_mounts ≢ []
      → apply p (add (at_volume_mounts_end (length before)) (one_mount m))
        ≡ some (record p {
          containers = before ++ (record c { volume_mounts = c.volume_mounts ++ m ∷ [] } ∷ after);
        })

module _ (server : JsonPatch) where
  -- The operations in turn; the first error ends the request.
  unfoldable pub apply_all : Pod → List PatchOperation → Option Pod
  apply_all p [] = some p
  apply_all p (op ∷ ops) = bind_option (server.apply p op) (λ q. apply_all q ops)

  pub apply_all-append :
      (xs ys : List PatchOperation) (p : Pod) {q : Pod}
      → apply_all p xs ≡ some q
      → apply_all p (xs ++ ys) ≡ apply_all q ys
  unfolding apply_all
  apply_all-append [] ys p h = cc
  apply_all-append (op ∷ xs) ys p h = elim (Option-cases (server.apply p op)) [
    | inl e ↦ absurd (cc (rw e at h))
    | inr (r, e) ↦ rw e (apply_all-append xs ys r (rw e at h))
  ]

  pub apply_all-one :
      (p : Pod) (op : PatchOperation) {q : Pod}
      → server.apply p op ≡ some q
      → apply_all p (op ∷ []) ≡ some q
  unfolding apply_all
  apply_all-one p op h = rw h
