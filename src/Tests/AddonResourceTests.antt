-- ===== src/Tests/AddonResourceTests.antt =====
-- pkg/resources/addons at concrete inputs: the sample control plane with its address.
use mathlib.Core.List.{Memᴰ}
use controlplane_operator.Base.{
  ◌+◌, ◌*◌, ◌^◌, ◌≡◌, refl, true, false, Option, some, List, [], ◌∷◌, ◌++◌, ok, All,
}
use controlplane_operator.Net.{Ip, to4, contains, be_value, be_value_from, unmap}
use controlplane_operator.Utils.Text.{ip_at_offset, offset_into, pack, unpack}
use controlplane_operator.Controller.Addons.Token.{BootstrapToken}
use controlplane_operator.AddonResources.Objects.{Object, cluster_role_binding_object}
use controlplane_operator.AddonResources.Backing.{Backed, namespaces_first, role_built}
use controlplane_operator.AddonResources.CoreDns.{ip_or_nil}
use controlplane_operator.AddonResources.Addons
use controlplane_operator.AddonResources.Addons.Parts
use controlplane_operator.AddonResources.Addons.Supported.{all_objects, objects_lem, objects-Backed}
use controlplane_operator.AddonResources.Join
use controlplane_operator.AddonResources.Join.{objects_with}
use controlplane_operator.AddonResources.Join.Bindings
use controlplane_operator.AddonResources.Join.Configs.{
  Encoders, KubeletConfiguration, versioned_configuration, versioned_configuration_for,
  unversioned_configuration, unversioned_configuration_for,
}
use controlplane_operator.AddonResources.Join.References.{
  own_cluster_roles, missing_role, join-Backed_but_one,
}
use controlplane_operator.AddonResources.Join.Dns.{Agree, dns-Agree}
use controlplane_operator.Tests.Fixtures.{published}
use controlplane_operator.Tests.PkiTests.{net}

abbrev tenth : Option Ip
tenth = some (unpack (10 * 2 ^ 24 + 96 * 2 ^ 16 + 10))

tenth_found : ip_or_nil (ip_at_offset net "10.96.0.0/12" 10) ≡ some tenth
unfolding ip_or_nil ip_at_offset offset_into pack unpack to4 unmap contains be_value be_value_from
tenth_found = refl

abbrev adds : List Object
adds =
    all_objects net published (record { pod_cidr = "10.244.0.0/16"; service_cidr = "10.96.0.0/12" })
      tenth

built : Addons.objects net published ≡ some adds
built = objects_lem net published _ refl tenth tenth_found

objects-Backed_example :
    All (Backed Parts.own_cluster_roles adds) adds × (namespaces_first [] adds ≡ true)
objects-Backed_example = objects-Backed net published adds built

abbrev pub token : BootstrapToken
token = record { id = "abcdef"; secret = "0123456789abcdef" }

abbrev enc : Encoders
enc = record {
  write_config = λ cfg. ok "kind: Config";
  kubelet_yaml = λ kc. "kind: KubeletConfiguration";
  cluster_yaml = λ c. "kind: ClusterConfiguration";
}

abbrev config : KubeletConfiguration
config = versioned_configuration_for net tenth

abbrev unversioned_config : KubeletConfiguration
unversioned_config = unversioned_configuration_for net tenth

abbrev joins : List Object
joins = objects_with enc published token (1 ∷ []) config unversioned_config

join_built : Join.objects net enc published token (1 ∷ []) ≡ some joins
unfolding Join.objects versioned_configuration unversioned_configuration ip_or_nil ip_at_offset
    offset_into pack unpack to4 unmap contains be_value be_value_from
join_built = refl

join-Backed_but_one_example :
    All (Backed (missing_role ∷ own_cluster_roles) joins) joins
    × (namespaces_first [] joins ≡ true)
    × Memᴰ (cluster_role_binding_object Bindings.kubelet_config) joins
    × (Bindings.kubelet_config.role_ref.name ≡ missing_role)
    × (role_built own_cluster_roles (joins ++ adds) "" "ClusterRole" missing_role ≡ false)
join-Backed_but_one_example =
    join-Backed_but_one net enc published token (1 ∷ []) joins adds join_built built

dns-Agree_example : Agree net enc published joins adds
dns-Agree_example = dns-Agree net enc published token (1 ∷ []) joins adds join_built built
