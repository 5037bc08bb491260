-- ===== src/Pki/Coverage.antt =====
-- The subject alternative names of the serving certificates cover the published address.
use controlplane_operator.Base.{
  String, ◌≡◌, ◌≢◌, refl, ◌⊎◌, inl, inr, false, none, some, Option-cases, List, [], ◌∷◌, ◌++◌,
  str_eq, eq_iff, arith,
}
use mathlib.Core.List.{Memᴰ}
use mathlib.Core.List.Memᴰ.{head, tail}
use controlplane_operator.Net.{Ip, Net}
use controlplane_operator.Cluster.{ClusterContext}
use controlplane_operator.Pki.Sans.{
  service_ips, with_addresses, apiserver_sans, konnectivity_server_sans,
}

-- The loopback address is covered. The published address is among the IP addresses when it reads as
-- one, and among the DNS names otherwise.
pub record Covers (net : Net) (cc : ClusterContext) (sans : List String × List String)
    : Type 0 where
  pub loopback : Memᴰ "127.0.0.1" sans.1
  pub published :
      ((net.parse_ip cc.status.address ≡ none) × Memᴰ cc.status.address sans.0)
      ⊎ ((ip : Ip) × (net.parse_ip cc.status.address ≡ some ip) × Memᴰ cc.status.address sans.1)

mem_last : (x : String) (xs : List String) → Memᴰ x (xs ++ x ∷ [])
mem_last x [] = head refl
mem_last x (y ∷ ys) = tail (mem_last x ys)

mem_left : (x : String) (xs ys : List String) → Memᴰ x xs → Memᴰ x (xs ++ ys)
mem_left x [] ys m = elim m [ ]
mem_left x (z ∷ xs) ys (head e) = head e
mem_left x (z ∷ xs) ys (tail m) = tail (mem_left x xs ys m)

module _ (net : Net) (cc : ClusterContext) (known : cc.status.address ≢ "") where
  with_addresses-Covers : (dns : List String) → Covers net cc (with_addresses net cc dns)
  unfolding with_addresses
  with_addresses-Covers dns =
      let addr = cc.status.address in
      let set : str_eq addr "" ≡ false = ground (arith, eq_iff addr "") in
      elim (Option-cases (net.parse_ip addr)) [
        | inl e ↦
            rw (set, e)
              (record {
                loopback = mem_last "127.0.0.1" (service_ips net cc);
                published = inl (e, mem_last addr dns);
              })
        | inr (ip, e) ↦
            rw (set, e)
              (record {
                loopback = mem_last "127.0.0.1" (service_ips net cc ++ addr ∷ []);
                published = inr (
                  ip,
                  e,
                  mem_left addr (service_ips net cc ++ addr ∷ []) _
                      (mem_last addr (service_ips net cc)),
                );
              })
      ]

-- Once an address is published, both serving certificates cover it and the loopback address.
pub sans-Covers :
    (net : Net) (cc : ClusterContext)
    → cc.status.address ≢ ""
    → Covers net cc (apiserver_sans net cc) × Covers net cc (konnectivity_server_sans net cc)
unfolding apiserver_sans konnectivity_server_sans
sans-Covers net cc known =
    (with_addresses-Covers net cc known _, with_addresses-Covers net cc known _)
