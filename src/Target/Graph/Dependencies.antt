-- ===== src/Target/Graph/Dependencies.antt =====
-- The dependencies that `DockerPlanner::plan` of src/target_modules/graph.rs states for a container.
use docker_lens.Prelude.{
  ◌≡◌, ◌⊎◌, inl, inr, refl, ap, ◌∙◌, some, List, [], ◌∷◌, ◌++◌, map, contains, contains→In,
  In-append_iff, In-map_origin, In, Bool-cases, nat_eq, if◌then◌else◌,
}
use docker_lens.Observation.{ResourceRef}
use docker_lens.Target.Resource.{TargetKind, TargetResource, kind}
use docker_lens.Target.Network.{NetworkAttachmentIntent}
use docker_lens.Target.Container.{MountSource, Mount}
use docker_lens.Target.Graph.{
  required, required_by, volume_of, volumes_of, push_new, dependencies_of,
}

push_new-In :
    (u : ResourceRef) (seen : List ResourceRef) (needed : List (ResourceRef × TargetKind))
    → In u (push_new seen needed)
    → In u seen ⊎ ((expected : TargetKind) × In (u, expected) needed)
push_new-In u seen [] m = inl m
push_new-In u seen ((r, expected) ∷ needed) m =
    elim (push_new-In u (if contains seen r then seen else seen ++ r ∷ []) needed m) [
      | inr (k, later) ↦ inr (k, inr later)
      | inl here ↦ elim (Bool-cases (contains seen r)) [
        | inl old ↦ inl (rw old at here)
        | inr new ↦ elim ((In-append_iff u seen (r ∷ [])).0 (rw new at here)) [
          | inl before ↦ inl before
          | inr (inl same) ↦ inr (expected, inl (ap (λ x. (x, expected)) same))
          | inr (inr nothing) ↦ absurd nothing
        ]
      ]
    ]

push_new_old :
    (u : ResourceRef) (seen : List ResourceRef) (needed : List (ResourceRef × TargetKind))
    → In u seen
    → In u (push_new seen needed)
push_new_old u seen [] m = m
push_new_old u seen ((r, expected) ∷ needed) m = elim (Bool-cases (contains seen r)) [
  | inl old ↦ rw old (push_new_old u seen needed m)
  | inr new ↦
      rw new (push_new_old u (seen ++ r ∷ []) needed ((In-append_iff u seen (r ∷ [])).1 (inl m)))
]

push_new_needed :
    (u : ResourceRef) (k : TargetKind) (seen : List ResourceRef)
    (needed : List (ResourceRef × TargetKind))
    → In (u, k) needed
    → In u (push_new seen needed)
push_new_needed u k seen [] m = absurd m
push_new_needed u k seen ((r, expected) ∷ needed) (inr m) =
    push_new_needed u k (if contains seen r then seen else seen ++ r ∷ []) needed m
push_new_needed u k seen ((r, expected) ∷ needed) (inl same) =
    let e : r ≡ u = ap (λ p. p.0) same in
    elim (Bool-cases (contains seen r)) [
      | inl old ↦ rw old (push_new_old u seen needed (rw (← e) (contains→In r seen old)))
      | inr new ↦
          rw new (
            push_new_old u (seen ++ r ∷ []) needed
              ((In-append_iff u seen (r ∷ [])).1 (inr (inl e))))
    ]

-- the needs of a resource, as its node takes them
pub dependencies_of-In :
    (d : ResourceRef) (r : TargetResource)
    → In d (dependencies_of r)
    → (expected : TargetKind) × In (d, expected) (required_by (some r))
dependencies_of-In d (TargetResource.container c) m = elim (push_new-In d [] (required c) m) [
  | inl nothing ↦ absurd nothing
  | inr found ↦ found
]
dependencies_of-In d (TargetResource.network n) m = absurd m
dependencies_of-In d (TargetResource.volume r i labels) m = absurd m
dependencies_of-In d (TargetResource.external_volume r i) m = absurd m

pub dependencies_of_needed :
    (d : ResourceRef) (expected : TargetKind) (r : TargetResource)
    → In (d, expected) (required_by (some r))
    → In d (dependencies_of r)
dependencies_of_needed d expected (TargetResource.container c) m =
    push_new_needed d expected [] (required c) m
dependencies_of_needed d expected (TargetResource.network n) m = absurd m
dependencies_of_needed d expected (TargetResource.volume r i labels) m = absurd m
dependencies_of_needed d expected (TargetResource.external_volume r i) m = absurd m

-- no container needs a container
volume_of-kind :
    (p : ResourceRef × TargetKind) (source : MountSource)
    → In p (volume_of source)
    → ¬ (p.1 ≡ TargetKind.container)
volume_of-kind p (MountSource.volume r) (inl same) e =
    let bad : TargetKind.volume ≡ TargetKind.container = ap (λ x. x.1) same ∙ e in cc
volume_of-kind p (MountSource.volume r) (inr nothing) e = nothing
volume_of-kind p (MountSource.bind path) m e = m
volume_of-kind p (MountSource.tmpfs options) m e = m

volumes_of-kind :
    (p : ResourceRef × TargetKind) (mounts : List Mount)
    → In p (volumes_of mounts)
    → ¬ (p.1 ≡ TargetKind.container)
volumes_of-kind p [] m e = absurd m
volumes_of-kind p (mount ∷ mounts) m e =
    elim ((In-append_iff p (volume_of mount.source) (volumes_of mounts)).0 m) [
      | inl here ↦ volume_of-kind p mount.source here e
      | inr later ↦ volumes_of-kind p mounts later e
    ]

attachments-kind :
    (p : ResourceRef × TargetKind) (attachments : List NetworkAttachmentIntent)
    → In p (map (λ a. (a.network, TargetKind.network)) attachments)
    → ¬ (p.1 ≡ TargetKind.container)
attachments-kind p attachments m e =
    let (a, k, same) =
      In-map_origin (λ (a : NetworkAttachmentIntent). (a.network, TargetKind.network)) p attachments
        m in
    let bad : TargetKind.network ≡ TargetKind.container = ap (λ x. x.1) same ∙ e in cc

pub required_by-kind :
    (p : ResourceRef × TargetKind) (r : TargetResource)
    → In p (required_by (some r))
    → ¬ (p.1 ≡ TargetKind.container)
required_by-kind p (TargetResource.container c) m =
    elim ((In-append_iff p (map (λ a. (a.network, TargetKind.network)) c.networks)
        (volumes_of c.mounts)).0
      m) [
        | inl here ↦ attachments-kind p c.networks here
        | inr there ↦ volumes_of-kind p c.mounts there
      ]
required_by-kind p (TargetResource.network n) m = absurd m
required_by-kind p (TargetResource.volume r i labels) m = absurd m
required_by-kind p (TargetResource.external_volume r i) m = absurd m

-- only a container needs resources
pub required_by-container :
    (p : ResourceRef × TargetKind) (r : TargetResource)
    → In p (required_by (some r))
    → kind r ≡ TargetKind.container
required_by-container p (TargetResource.container c) m = refl
required_by-container p (TargetResource.network n) m = absurd m
required_by-container p (TargetResource.volume r i labels) m = absurd m
required_by-container p (TargetResource.external_volume r i) m = absurd m
