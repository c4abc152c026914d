-- ===== src/Admission/Policy/Compliance.antt =====
-- The policy of apps/admission-webhook/policy/policy.go as a list of requirements.
use mathlib.Core.List.{Memᴰ}
use iron_book.Common.{
  String, ◌≡◌, ◌≢◌, ◌↔◌, ◌⊎◌, inl, inr, refl, sym, ap, if◌then◌else◌, Bool, true, false, not, ◌&&◌,
  Bool-cases, List, [], ◌∷◌, Option, none, some, All, str_eq, eq_iff,
}
use iron_book.Common.Text.{contains}
use iron_book.Kube.{
  Pod, PodSecurityContext, Container, SecurityContext, Volume, VolumeSource, host_path, empty_dir,
  other_source,
}
use iron_book.Admission.Policy.{
  is_test_pod, contains_cap, is_true, is_false, drops_all, is_gvisor, runs_non_root, check_security,
  check_container, check_containers, check_volume, check_volumes, orelse,
}

-- `test` is whether the pod carries the label `ironbook.io/test=true`.
pub record IsHardened (sc : SecurityContext) : Type 0 where
  pub no_escalation : sc.allow_privilege_escalation ≡ some false
  pub read_only : sc.read_only_root_filesystem ≡ some true
  pub drop : List String
  pub drops : sc.capabilities_drop ≡ some drop
  pub all : Memᴰ "ALL" drop

pub record IsSafeContainer (test : Bool) (c : Container) : Type 0 where
  pub pinned : (test ≡ true) ⊎ (contains c.image "@sha256:" ≡ true)
  pub security : SecurityContext
  pub has_security : c.security_context ≡ some security
  pub hardened : IsHardened security

abbrev pub IsNotHostPath : Volume → Type 0
IsNotHostPath v = (path : String) → v.source ≢ host_path path

pub record IsCompliant (pod : Pod) : Type 0 where
  pub in_namespace : pod.meta.namespace ≡ "submissions"
  pub no_host_network : pod.spec.host_network ≡ false
  pub no_host_pid : pod.spec.host_pid ≡ false
  pub no_host_ipc : pod.spec.host_ipc ≡ false
  pub sandboxed : (is_test_pod pod ≡ true) ⊎ (pod.spec.runtime_class_name ≡ some "gvisor")
  pub pod_security : PodSecurityContext
  pub has_pod_security : pod.spec.security_context ≡ some pod_security
  pub non_root : pod_security.run_as_non_root ≡ some true
  pub some_container : pod.spec.containers ≢ []
  pub containers : All (IsSafeContainer (is_test_pod pod)) pod.spec.containers
  pub volumes : All IsNotHostPath pod.spec.volumes

contains_cap-mem :
    (have : List String) (want : String) → contains_cap have want ≡ true → Memᴰ want have
unfolding contains_cap
contains_cap-mem [] want h = cc
contains_cap-mem (c ∷ have) want h = elim (Bool-cases (str_eq c want)) [
  | inl e ↦ Memᴰ.head (sym ((eq_iff c want).0 e))
  | inr e ↦ Memᴰ.tail (contains_cap-mem have want (rw e at h))
]

mem-contains_cap :
    (have : List String) (want : String) → Memᴰ want have → contains_cap have want ≡ true
unfolding contains_cap
mem-contains_cap [] want m = elim m [ ]
mem-contains_cap (c ∷ have) want (Memᴰ.head e) = rw ((eq_iff c want).1 (sym e))
mem-contains_cap (c ∷ have) want (Memᴰ.tail m) = elim (Bool-cases (str_eq c want)) [
  | inl e ↦ rw e
  | inr e ↦ rw e (mem-contains_cap have want m)
]

-- A check of the cascade lets the pod pass.
passes :
    (b : Bool) (reason : String) (rest : Option String)
    → (if b then some reason else rest) ≡ none
    → (b ≡ false) × (rest ≡ none)
passes true reason rest h = cc
passes false reason rest h = (refl, h)

pub not-eq-false : (b : Bool) → not b ≡ false → b ≡ true
not-eq-false true h = refl
not-eq-false false h = cc

is_true-eq : (o : Option Bool) → is_true o ≡ true → o ≡ some true
is_true-eq none h = cc
is_true-eq (some b) h = cc

is_false-eq : (o : Option Bool) → is_false o ≡ true → o ≡ some false
is_false-eq none h = cc
is_false-eq (some true) h = cc
is_false-eq (some false) h = refl

drops_all-eq :
    (o : Option (List String))
    → drops_all o ≡ true
    → (drop : List String) × (o ≡ some drop) × Memᴰ "ALL" drop
drops_all-eq none h = cc
drops_all-eq (some drop) h = (drop, refl, contains_cap-mem drop "ALL" h)

pub is_gvisor-eq : (o : Option String) → is_gvisor o ≡ true → o ≡ some "gvisor"
is_gvisor-eq none h = cc
is_gvisor-eq (some name) h = ap some ((eq_iff name "gvisor").0 h)

pub runs_non_root-eq :
    (o : Option PodSecurityContext)
    → runs_non_root o ≡ true
    → (sc : PodSecurityContext) × (o ≡ some sc) × (sc.run_as_non_root ≡ some true)
runs_non_root-eq none h = cc
runs_non_root-eq (some sc) h = (sc, refl, is_true-eq sc.run_as_non_root h)

check_security_sound :
    (o : Option SecurityContext)
    → check_security o ≡ none
    → (sc : SecurityContext) × (o ≡ some sc) × IsHardened sc
unfolding check_security
check_security_sound none h = cc
check_security_sound (some sc) h =
    let (escalation, h₁) = passes _ _ _ h in
    let (rootfs, h₂) = passes _ _ _ h₁ in
    let (caps, h₃) = passes _ _ _ h₂ in
    let (drop, drops, all) = drops_all-eq sc.capabilities_drop (not-eq-false _ caps) in
    (
      sc,
      refl,
      record {
        no_escalation = is_false-eq sc.allow_privilege_escalation (not-eq-false _ escalation);
        read_only = is_true-eq sc.read_only_root_filesystem (not-eq-false _ rootfs);
        drop = drop;
        drops = drops;
        all = all;
      },
    )

check_security_complete : (sc : SecurityContext) → IsHardened sc → check_security (some sc) ≡ none
unfolding check_security
check_security_complete sc h =
    rw (h.no_escalation, h.read_only, h.drops, mem-contains_cap h.drop "ALL" h.all)

pub not_and : (a b : Bool) → (not a && not b) ≡ false → (a ≡ true) ⊎ (b ≡ true)
not_and true b h = inl refl
not_and false b h = inr (not-eq-false b h)

pub or-not_and : (a b : Bool) → (a ≡ true) ⊎ (b ≡ true) → (not a && not b) ≡ false
or-not_and true b h = refl
or-not_and false b (inl h) = cc
or-not_and false true (inr h) = refl
or-not_and false false (inr h) = cc

check_container_sound :
    (test : Bool) (c : Container) → check_container test c ≡ none → IsSafeContainer test c
unfolding check_container
check_container_sound test c h =
    let (pin, h') = passes _ _ _ h in
    let (sc, has, hard) = check_security_sound c.security_context h' in
    record { pinned = not_and test _ pin; security = sc; has_security = has; hardened = hard }

check_container_complete :
    (test : Bool) (c : Container) → IsSafeContainer test c → check_container test c ≡ none
unfolding check_container
check_container_complete test c h =
    rw (or-not_and test (contains c.image "@sha256:") h.pinned, h.has_security)
      (check_security_complete h.security h.hardened)

pub orelse-none : (a b : Option String) → orelse a b ≡ none → (a ≡ none) × (b ≡ none)
orelse-none none b h = (refl, h)
orelse-none (some r) b h = cc

pub check_containers_sound :
    (test : Bool) (cs : List Container)
    → check_containers test cs ≡ none
    → All (IsSafeContainer test) cs
unfolding check_containers
check_containers_sound test [] h = tt
check_containers_sound test (c ∷ cs) h =
    let (first, others) = orelse-none _ _ h in
    (check_container_sound test c first, check_containers_sound test cs others)

pub check_containers_complete :
    (test : Bool) (cs : List Container)
    → All (IsSafeContainer test) cs
    → check_containers test cs ≡ none
unfolding check_containers
check_containers_complete test [] h = refl
check_containers_complete test (c ∷ cs) h =
    rw (check_container_complete test c h.0) (check_containers_complete test cs h.1)

check_volume_iff :
    (v : Volume) (source : VolumeSource)
    → v.source ≡ source
    → (check_volume source ≡ none) ↔ IsNotHostPath v
check_volume_iff v (host_path path) e = (λ h. cc, λ h. absurd (h path e))
check_volume_iff v empty_dir e = (λ h path e'. cc, λ h. refl)
check_volume_iff v other_source e = (λ h path e'. cc, λ h. refl)

pub check_volumes_sound : (vs : List Volume) → check_volumes vs ≡ none → All IsNotHostPath vs
unfolding check_volumes
check_volumes_sound [] h = tt
check_volumes_sound (v ∷ vs) h =
    let (first, others) = orelse-none _ _ h in
    ((check_volume_iff v v.source refl).0 first, check_volumes_sound vs others)

pub check_volumes_complete : (vs : List Volume) → All IsNotHostPath vs → check_volumes vs ≡ none
unfolding check_volumes
check_volumes_complete [] h = refl
check_volumes_complete (v ∷ vs) h =
    rw ((check_volume_iff v v.source refl).1 h.0) (check_volumes_complete vs h.1)
