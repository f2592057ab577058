-- ===== src/Acl/BlockList/Blocking.antt =====
-- Enough failures block an address: the reports of `report_addr` in server.c, one after another.
use openwrt_helloworld.Prelude.{
  ℕ, suc, ◌+◌, ◌≤◌, ◌<◌, ◌≡◌, refl, subst, ap, arith, true, List, [], ◌∷◌, All, length, ltb, lt→ltb,
  ==_refl, if◌then◌else◌,
}
use openwrt_helloworld.Prelude.{sym, ◌∙◌}
use openwrt_helloworld.Cache.Hashing.{Uthash, Clock}
use openwrt_helloworld.Acl.BlockList.{BlockList, check_block_list, update_block_list}
use openwrt_helloworld.Acl.BlockList.Counting.{
  Counts, check_block_list-count, update_block_list-count,
}

grows :
    (n n' err k : ℕ)
    → n' ≡ (if ltb 64 n then n else n + err)
    → 1 ≤ err
    → 64 < n + suc k
    → 64 < n' + k
grows n n' err k e h over = ground arith

module _ (clock : Clock) (uthash : Uthash ℕ clock) (addr : List ℕ) where
  open clock use {Time}

  -- One report: its times, what `malloc` would return, and the error level.
  pub record Failure : Type 0 where
    pub first_use : Time
    pub second_use : Time
    pub address : ℕ
    pub pointer : ℕ
    pub err_level : ℕ

  -- The list after the reports.
  unfoldable pub reported : List Failure → BlockList clock uthash → BlockList clock uthash
  reported [] b = b
  reported (r ∷ rs) b =
      reported rs
        (update_block_list clock uthash r.first_use r.second_use r.address r.pointer addr
          r.err_level b).after

  reported-count :
      (rs : List Failure) (b : BlockList clock uthash) (p : ℕ)
      → Counts clock uthash b addr p
      → All (λ r. 1 ≤ r.err_level) rs
      → 64 < b.counts p + length rs
      → Counts clock uthash (reported rs b) addr p × (64 < (reported rs b).counts p)
  unfolding reported
  reported-count [] b p n h over = (n, omega arith)
  reported-count (r ∷ rs) b p n h over =
      let (b', updates, counts, n') =
        update_block_list-count clock uthash b addr p n r.first_use r.second_use r.address r.pointer
          r.err_level in
      let now : b'.counts p
          ≡ (if ltb 64 (b.counts p) then b.counts p else b.counts p + r.err_level) =
        counts p ∙ rw (==_refl p) refl in
      subst
        (λ x.
          Counts clock uthash (reported rs x.after) addr p × (64 < (reported rs x.after).counts p))
        (sym updates)
        (reported-count rs b' p n' h.1
          (grows (b.counts p) (b'.counts p) r.err_level (length rs) now h.0 over))

  -- An address with a counter is blocked after reports that raise the counter above 64: each report
  -- has an error level of at least 1, so that many reports are enough.
  pub check_block_list-reported :
      (rs : List Failure) (b : BlockList clock uthash) (p : ℕ)
      → Counts clock uthash b addr p
      → All (λ r. 1 ≤ r.err_level) rs
      → 64 < b.counts p + length rs
      → (t1 t2 : Time) → (check_block_list clock uthash t1 t2 addr (reported rs b)).0 ≡ true
  check_block_list-reported rs b p n h over t1 t2 =
      let (n', above) = reported-count rs b p n h over in
      let (b', checks, same, still) =
        check_block_list-count clock uthash (reported rs b) addr p n' t1 t2 in
      ap (λ r. r.0) checks ∙ lt→ltb 64 ((reported rs b).counts p) above
