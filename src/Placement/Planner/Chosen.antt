-- ===== src/Placement/Planner/Chosen.antt =====
-- What holds of the interfaces of both nodes holds of every candidate of `Place`.
use mxl_k8s.Base.{◌≡◌, refl, not, ◌&&◌, List, [], ◌∷◌, ◌++◌, map, All, Bool-cases, inl, inr}
use mxl_k8s.Base.Texts.{same_text}
use mxl_k8s.Placement.Node.{FabricInterface, interfaces}
use mxl_k8s.Placement.Ledger.{Ledger, node_at}
use mxl_k8s.Placement.Planner.{
  Settings, Request, Candidate, Netip, Pairing, any_pair, same_subnet, prefer_same_subnet, score,
  pairs, on_one_subnet, paired, without_link_local, link_local, routable, allowed, scored,
}

All-append : {A : Type 0} (P : A → Type 0) (xs ys : List A) → All P xs → All P ys → All P (xs ++ ys)
All-append P [] ys h k = k
All-append P (x ∷ xs) ys h k = (h.0, All-append P xs ys h.1 k)

abbrev Both :
    (FabricInterface → Type 0)
    → (FabricInterface → Type 0)
    → FabricInterface × FabricInterface
    → Type 0
Both P Q p = P p.0 × Q p.1

module _ (P Q : FabricInterface → Type 0) where
  pairs_with-Both :
      (a : FabricInterface) (bs : List FabricInterface)
      → P a
      → All Q bs
      → All (Both P Q) (map (λ b. (a, b)) bs)
  pairs_with-Both a [] p h = tt
  pairs_with-Both a (b ∷ bs) p h = ((p, h.0), pairs_with-Both a bs p h.1)

  pairs-Both : (xs bs : List FabricInterface) → All P xs → All Q bs → All (Both P Q) (pairs xs bs)
  unfolding pairs
  pairs-Both [] bs h k = tt
  pairs-Both (a ∷ xs) bs h k =
      All-append (Both P Q) (map (λ b. (a, b)) bs) (pairs xs bs) (pairs_with-Both a bs h.0 k)
        (pairs-Both xs bs h.1 k)

  on_one_subnet-Both :
      (ps : List (FabricInterface × FabricInterface))
      → All (Both P Q) ps
      → All (Both P Q) (on_one_subnet ps)
  unfolding on_one_subnet
  on_one_subnet-Both [] h = tt
  on_one_subnet-Both ((a, b) ∷ ps) h =
      elim (Bool-cases (not (same_text a.subnet "") && same_text a.subnet b.subnet)) [
        | inl q ↦ rw q (h.0, on_one_subnet-Both ps h.1)
        | inr q ↦ rw q (on_one_subnet-Both ps h.1)
      ]

  paired-Both :
      (k : Pairing) (ps : List (FabricInterface × FabricInterface))
      → All (Both P Q) ps
      → All (Both P Q) (paired k ps)
  unfolding paired
  paired-Both any_pair ps h = h
  paired-Both same_subnet ps h = on_one_subnet-Both ps h
  paired-Both prefer_same_subnet ps h = by_same (on_one_subnet ps) (on_one_subnet-Both ps h)
    where
      by_same :
          (same : List (FabricInterface × FabricInterface))
          → All (Both P Q) same
          → All (Both P Q) (elim same [ [] ↦ ps | q ∷ qs ↦ q ∷ qs ])
      by_same [] k = h
      by_same (q ∷ qs) k = k

module _ {Addr : Type 0} (ip : Netip Addr) (P : FabricInterface → Type 0) where
  without_link_local-All : (is : List FabricInterface) → All P is → All P (without_link_local ip is)
  unfolding without_link_local
  without_link_local-All [] h = tt
  without_link_local-All (i ∷ is) h = elim (Bool-cases (link_local ip i.address)) [
    | inl q ↦ rw q (without_link_local-All is h.1)
    | inr q ↦ rw q (h.0, without_link_local-All is h.1)
  ]

  routable-All : (is : List FabricInterface) → All P is → All P (routable ip is)
  unfolding routable
  routable-All is h = by_rest (without_link_local ip is) (without_link_local-All is h)
    where
      by_rest :
          (rest : List FabricInterface)
          → All P rest
          → All P (elim rest [ [] ↦ is | i ∷ more ↦ i ∷ more ])
      by_rest [] k = h
      by_rest (i ∷ more) k = k

module _ {Addr : Type 0} (ip : Netip Addr) (l : Ledger) (s : Settings) (req : Request)
    (P Q : FabricInterface → Type 0) where
  -- A candidate is the score of a pair of interfaces that have the properties.
  abbrev pub IsScored : Candidate → Type 0
  IsScored c =
      (c ≡ score l s (node_at l req.source_node) (node_at l req.target_node) c.src c.tgt req)
      × P c.src
      × Q c.tgt

  scored-IsScored :
      (ps : List (FabricInterface × FabricInterface))
      → All (Both P Q) ps
      → All IsScored (scored ip l s req ps)
  unfolding scored score
  scored-IsScored [] h = tt
  scored-IsScored ((a, b) ∷ ps) h = ((refl, h.0.0, h.0.1), scored-IsScored ps h.1)

  pub candidates-IsScored :
      All P (interfaces (node_at l req.source_node) req.provider)
      → All Q (interfaces (node_at l req.target_node) req.provider)
      → All IsScored (scored ip l s req (allowed ip l s req))
  unfolding allowed
  candidates-IsScored h k = scored-IsScored (allowed ip l s req) (
      paired-Both P Q s.pairing _
        (pairs-Both P Q _ _ (routable-All ip P _ h) (routable-All ip Q _ k)))
