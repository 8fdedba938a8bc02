-- ===== src/Fat32/Chain/Follow.antt =====
-- Following a chain: `get_cluster_at_index` and `cluster_to_sector` of os/fs/fat32.c.
use kernel_team_project.Base.{
  ℕ, zero, suc, ◌+◌, ◌-◌, ◌≤◌, ◌<◌, ◌≡◌, refl, ap, ◌∙◌, inr, ◌⊎◌, none, some, arith, to_u32,
  ne→not-==, lt→not-leb, u32_mod,
}
use kernel_team_project.Fat32.Types.{
  Bytes, Fs, eoc_marker, error_io, error_invalid_cluster, success,
}
use kernel_team_project.Fat32.Memory.{AreBytes}
use kernel_team_project.Fat32.Chain.{
  fat_sector, classify, get_next_cluster, follow_chain, get_cluster_at_index, cluster_to_sector,
}
use kernel_team_project.Fat32.Chain.Entries.{fat_value, get_next_cluster_lem}

-- The FAT can be read at cluster `a`, and names the data cluster `b` as its successor.
pub record Link (fs : Fs) (a b : ℕ) : Type 0 where
  pub sector : Bytes
  pub read : fs.disk (fat_sector fs a) ≡ some sector
  pub bytes : AreBytes sector
  pub value : fat_value sector a ≡ b
  pub low : 2 ≤ b
  pub high : b < 0x0FFFFFF7

pub get_next_cluster-Link : {fs : Fs} {a b : ℕ} → Link fs a b → get_next_cluster fs a ≡ b
unfolding classify
get_next_cluster-Link {fs} {a} {b} l =
    get_next_cluster_lem fs a l.read l.bytes ∙ ap classify l.value ∙ ground (arith, l.low, l.high)

-- Only a number that names a data cluster is turned into a sector.
pub cluster_to_sector_lem :
    (fs : Fs) (cluster : ℕ)
    → fs.total_clusters < u32_mod - 2
    → (cluster < 2) ⊎ (fs.total_clusters + 2 ≤ cluster)
    → cluster_to_sector fs cluster ≡ error_invalid_cluster
unfolding cluster_to_sector
cluster_to_sector_lem fs cluster small out = ground arith

module _ (fs : Fs) (chain : ℕ → ℕ) where
  -- The first `k` links of a chain.
  abbrev pub Linked : ℕ → Type 0
  Linked k = (j : ℕ) → j < k → Link fs (chain j) (chain (suc j))

  follow_chain-Linked :
      (rounds i index k : ℕ)
      → i + rounds ≡ k
      → Linked k
      → follow_chain fs rounds i index (chain i) ≡ (success, chain k)
  unfolding follow_chain
  follow_chain-Linked zero i index k e links = ap (λ (j : ℕ). (success, chain j)) (omega arith)
  follow_chain-Linked (suc rounds) i index k e links =
      let link = links i (omega arith) in
      rw
        (
          get_next_cluster-Link link,
          ne→not-== (chain (suc i)) eoc_marker (omega (arith, link.high)),
        )
        (ap (λ t. follow_chain fs rounds t index (chain (suc i))) (omega arith)
          ∙ follow_chain-Linked rounds (suc i) index k (omega arith) links)

  -- Along a chain of data clusters that does not start at cluster 2 the cluster at index `k` is found, if
  -- the FAT can be read at each cluster in front of it.
  pub get_cluster_at_index_lem :
      (k : ℕ) → 3 ≤ chain 0 → Linked k → get_cluster_at_index fs (chain 0) k ≡ (success, chain k)
  unfolding get_cluster_at_index
  get_cluster_at_index_lem k start links =
      rw (lt→not-leb (chain 0) 2 start) (follow_chain-Linked k 0 k k (omega arith) links)

  get_next_cluster-unread :
      (a : ℕ) → fs.disk (fat_sector fs a) ≡ none → get_next_cluster fs a ≡ to_u32 error_io
  unfolding get_next_cluster
  get_next_cluster-unread a e = rw (e, get_next_cluster) refl

  follow_chain-fail :
      (rounds i index k : ℕ)
      → i + rounds ≡ k
      → Linked k
      → fs.disk (fat_sector fs (chain k)) ≡ none
      → follow_chain fs (suc rounds) i index (chain i) ≡ (success, to_u32 error_io)
  unfolding follow_chain
  follow_chain-fail zero i index k e links bad =
      let here : i ≡ k = omega arith in
      let got : get_next_cluster fs (chain i) ≡ to_u32 error_io =
        ap (λ j. get_next_cluster fs (chain j)) here ∙ get_next_cluster-unread (chain k) bad in
      rw got refl
  follow_chain-fail (suc rounds) i index k e links bad =
      let link = links i (omega arith) in
      rw
        (
          get_next_cluster-Link link,
          ne→not-== (chain (suc i)) eoc_marker (omega (arith, link.high)),
        )
        (ap (λ t. follow_chain fs (suc rounds) t index (chain (suc i))) (omega arith)
          ∙ follow_chain-fail rounds (suc i) index k (omega arith) links bad)

  -- Where the last FAT sector on the way cannot be read, success is reported all the same, with the
  -- error code for a cluster; turning that into a sector then fails as an invalid cluster.
  pub get_cluster_at_index_unread :
      (k : ℕ)
      → 3 ≤ chain 0
      → Linked k
      → fs.disk (fat_sector fs (chain k)) ≡ none
      → fs.total_clusters < u32_mod - 2
      → (get_cluster_at_index fs (chain 0) (suc k) ≡ (success, to_u32 error_io))
        × (cluster_to_sector fs (get_cluster_at_index fs (chain 0) (suc k)).1
            ≡ error_invalid_cluster)
  unfolding get_cluster_at_index
  get_cluster_at_index_unread k start links bad small =
      let found : get_cluster_at_index fs (chain 0) (suc k) ≡ (success, to_u32 error_io) =
        rw (lt→not-leb (chain 0) 2 start)
          (follow_chain-fail k 0 (suc k) k (omega arith) links bad) in
      (found, rw found (cluster_to_sector_lem fs (to_u32 error_io) small (inr (omega arith))))
