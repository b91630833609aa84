-- ===== src/Peering/Build/OwnNode.antt =====
-- The loop of `buildPeersConfig` and this node's own device.
use nexodus.Prelude.{
  ℕ, ◌≡◌, inl, inr, refl, ◌∙◌, String, Bool, [], ◌∷◌, ◌==◌, string_eq, arith, Bool-cases, eq_iff,
}
use nexodus.Prelude.Maps.{Map}
use nexodus.Peering.{Env, DeviceCacheEntry}
use nexodus.Peering.Build.{Progress, build_peer, build_peers}
use nexodus.Peering.Build.Rounds.{IsSameFor, round_self, round_frame, round-own}

module _ (env : Env) (now : ℕ) (healthy_relay wg_relay : Bool) where
  own_round :
      (d : DeviceCacheEntry) (s : Progress) (own : String)
      → s.nx.wireguard_pub_key ≡ own
      → IsSameFor own s (build_peer env now healthy_relay wg_relay d s)
  own_round d s own e = elim (Bool-cases (d.device.public_key == s.nx.wireguard_pub_key)) [
    | inl self ↦
        rw (round_self env now healthy_relay wg_relay d s ((eq_iff _ _).0 self)) (refl, refl, refl)
    | inr other ↦
        round_frame env now healthy_relay wg_relay d s own (λ same.
          ground (arith, other, eq_iff d.device.public_key s.nx.wireguard_pub_key, same, e))
  ]

  own_loop :
      (cache : Map String DeviceCacheEntry) (s : Progress) (own : String)
      → s.nx.wireguard_pub_key ≡ own
      → IsSameFor own s (build_peers env now healthy_relay wg_relay cache s)
  unfolding build_peers
  own_loop [] s own e = (refl, refl, refl)
  own_loop ((k, d) ∷ cache) s own e =
      let next = build_peer env now healthy_relay wg_relay d s in
      let first = own_round d s own e in
      let rest = own_loop cache next own (round-own env now healthy_relay wg_relay d s ∙ e) in
      (rest.0 ∙ first.0, rest.1 ∙ first.1, rest.2 ∙ first.2)

  -- The loop neither configures this node as a peer of its own nor reports it.
  pub build_peers-own :
      (cache : Map String DeviceCacheEntry) (s : Progress)
      → IsSameFor s.nx.wireguard_pub_key s (build_peers env now healthy_relay wg_relay cache s)
  build_peers-own cache s = own_loop cache s s.nx.wireguard_pub_key refl
