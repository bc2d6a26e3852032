-- ===== src/Drivers/Nvme/Queues/Tests.antt =====
-- Runs of the rings.
use good_os_framework.Base.{ℕ, ◌+◌, ◌%◌, ◌<◌, ◌≡◌, ◌≢◌, none, some, [], ◌∷◌, ◌++◌, done, arith}
use good_os_framework.Drivers.Nvme.Queues.{
  NvmeSubQueue, NvmeCompQueue, submit_checked, complete, complete_n,
}
use good_os_framework.Drivers.Nvme.Queues.Submit.{
  IsValid, pending, submit_checked_lem, pending_count,
}
use good_os_framework.Drivers.Nvme.Queues.Complete.{Synced, complete_lem}
use good_os_framework.Drivers.Nvme.Queues.Poll.{complete_n_lem}
use good_os_framework.Drivers.Nvme.Queues.Samples.{
  command, ring, ring-IsValid, hist, fresh_ring, two_posted, two_posted-Synced, memory, posted,
  memory-Synced, first_poll,
}

submit_checked_lem_example :
    ((pending_count ring + 1 ≡ ring.len) → submit_checked ring command ≡ done (none, ring))
    × ((pending_count ring + 1 ≢ ring.len)
        → (q' : NvmeSubQueue) × (submit_checked ring command ≡ done (some q'.tail, q'))
          × (pending q' ≡ pending ring ++ command ∷ [])
          × (q'.head ≡ ring.head)
          × IsValid q')
submit_checked_lem_example = submit_checked_lem ring command ring-IsValid

complete_lem_example :
    (0 < 2
      → (q' : NvmeCompQueue) × (complete two_posted ≡ done (some ((0 + 1) % 2, hist 0, 0 % 2), q'))
        × Synced q' hist (0 + 1) 2)
    × (◌≡◌ {A = ℕ} 0 2 → complete two_posted ≡ done (none, two_posted))
complete_lem_example = complete_lem two_posted hist 0 2 two_posted-Synced

complete_n_lem_example :
    (q' : NvmeCompQueue) × (complete_n 2 memory fresh_ring (1 + 1)
      ≡ done (((0 + 1 + 1) % 2, hist (0 + 1), 0 % 2), q'))
    × Synced q' hist (0 + 1 + 1) (posted 1)
complete_n_lem_example =
    complete_n_lem fresh_ring hist memory posted 0 1 1 2 (omega arith) memory-Synced first_poll
      (omega arith) (omega arith)
