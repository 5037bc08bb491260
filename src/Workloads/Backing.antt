-- ===== src/Workloads/Backing.antt =====
-- What it means that the files which a container is told to open are there.
use Prim.Native.String
use controlplane_operator.Base.{
  ℕ, zero, suc, String, ◌≡◌, refl, Option, none, some, true, List, [], ◌∷◌, map,
}
use mathlib.Core.List.{Memᴰ}
use mathlib.Core.List.Memᴰ.{head, tail}
use controlplane_operator.Cluster.{
  ClusterContext, VolumeMount, secret_mount, secret_mount_dir, secret_volume, join, ca_crt, tls_crt,
  tls_key,
}
use controlplane_operator.Builders.Certificate.{Certificate}
use controlplane_operator.Builders.Pod.{
  Container, PodTemplate, Volume, of_secret as as_volume, secret_source,
}

-- The keys of a secret that cert-manager writes.
abbrev pub issued_files : List String
issued_files = ca_crt ∷ tls_crt ∷ tls_key ∷ []

-- The path is a file that cert-manager writes into the secret of one of the certificates, in a volume
-- of the pod that the container mounts.
pub record Provided (certs : List Certificate) (vols : List Volume) (c : Container) (path : String)
    : Type 0 where
  pub mount : VolumeMount
  pub volume : Volume
  pub secret : String
  pub file : String
  pub at : path ≡ join mount.mount_path file
  pub mounted : Memᴰ mount c.volume_mounts
  pub provided : Memᴰ volume vols
  pub by_name : mount.name ≡ volume.name
  pub of_secret : volume.source ≡ secret_source secret
  pub issued : Memᴰ secret (map (λ (x : Certificate). x.spec.secret_name) certs)
  pub written : Memᴰ file issued_files

-- The container has the argument `flag ++ path`, and the path is provided.
pub record Opens (certs : List Certificate) (vols : List Volume) (c : Container) (flag : String)
    : Type 0 where
  pub path : String
  pub told : Memᴰ (String.◌++◌ flag path) c.args
  pub there : Provided certs vols c path

-- A secret that is mounted as pkg/cluster does it.
pub secret-Provided :
    {certs : List Certificate} {vols : List Volume} {c : Container} (cc : ClusterContext)
    (secret file : String)
    → Memᴰ (secret_mount cc secret true) c.volume_mounts
    → Memᴰ (as_volume (secret_volume cc secret)) vols
    → Memᴰ secret (map (λ (x : Certificate). x.spec.secret_name) certs)
    → Memᴰ file issued_files
    → Provided certs vols c (join (secret_mount_dir cc secret) file)
unfolding secret_mount secret_volume
secret-Provided cc secret file mounted provided issued written = record {
  mount = secret_mount cc secret true;
  volume = as_volume (secret_volume cc secret);
  secret = secret;
  file = file;
  at = refl;
  mounted = mounted;
  provided = provided;
  by_name = refl;
  of_secret = refl;
  issued = issued;
  written = written;
}

pub secret-Opens :
    {certs : List Certificate} {vols : List Volume} {c : Container} (cc : ClusterContext)
    (flag secret file : String)
    → Memᴰ (String.◌++◌ flag (join (secret_mount_dir cc secret) file)) c.args
    → Memᴰ (secret_mount cc secret true) c.volume_mounts
    → Memᴰ (as_volume (secret_volume cc secret)) vols
    → Memᴰ secret (map (λ (x : Certificate). x.spec.secret_name) certs)
    → Memᴰ file issued_files
    → Opens certs vols c flag
secret-Opens cc flag secret file told mounted provided issued written = record {
  path = join (secret_mount_dir cc secret) file;
  told = told;
  there = secret-Provided cc secret file mounted provided issued written;
}

infixr 5 ◌▸◌
pub data OpensAll (certs : List Certificate) (vols : List Volume) (c : Container)
    : List String → Type 0 where
  no_flags : OpensAll certs vols c []
  ◌▸◌ :
      {flag : String} {flags : List String}
      → Opens certs vols c flag
      → OpensAll certs vols c flags
      → OpensAll certs vols c (flag ∷ flags)

-- The pod has a container of this name, and the files of these flags are there.
pub record Runs (certs : List Certificate) (pod : PodTemplate) (name : String) (flags : List String)
    : Type 0 where
  pub container : Container
  pub present : Memᴰ container pod.containers
  pub named : container.name ≡ name
  pub opens : OpensAll certs pod.volumes container flags

abbrev pub nth {ℓ} : {A : Type ℓ} → ℕ → List A → Option A
nth n [] = none
nth zero (x ∷ xs) = some x
nth (suc n) (x ∷ xs) = nth n xs

pub nth-Mem {ℓ} : {A : Type ℓ} (n : ℕ) (xs : List A) {x : A} → nth n xs ≡ some x → Memᴰ x xs
nth-Mem n [] e = cc
nth-Mem zero (y ∷ xs) {x} e = head cc
nth-Mem (suc n) (y ∷ xs) e = tail (nth-Mem n xs e)
