-- ===== src/Drivers/Nvme/Device/Transfer.antt =====
-- src/drivers/nvme/nvme.rs: reads and writes on the queue pair of the device, whose id is 1.
use good_os_framework.Base.{
  ℕ, suc, ◌+◌, ◌-◌, ◌*◌, ◌/◌, ◌%◌, ◌^◌, Bool, true, false, not, Option, none, some, List, [], ◌∷◌,
  ltb, leb, ◌==◌, if◌then◌else◌, Outcome, done, ◌>>=◌, ◌>>◌, assert, unwrap,
}
use good_os_framework.Drivers.Nvme.Cmd.{NvmeCommand, io_read, io_write}
use good_os_framework.Drivers.Nvme.Memory.{Dma, DmaChunk, chunks, collect}
use good_os_framework.Drivers.Nvme.Queues.{submit, submit_checked, complete_n}
use good_os_framework.Drivers.Nvme.Device.{
  Controller, NvmeDevice, NvmeNamespace, sqy_tdbl, cqy_hdbl, write_reg_idx,
}

-- `blocks as u16 - 1`
abbrev pub blocks_1 : ℕ → ℕ
blocks_1 blocks = (blocks % 2 ^ 16 + 2 ^ 16 - 1) % 2 ^ 16

-- The read or write command.
abbrev pub io_command : Bool → ℕ → ℕ → ℕ → ℕ → ℕ → ℕ → NvmeCommand
io_command write c_id ns_id lba blocks ptr0 ptr1 =
    if write
    then io_write c_id ns_id lba (blocks_1 blocks) ptr0 ptr1
    else io_read c_id ns_id lba (blocks_1 blocks) ptr0 ptr1

-- The second pointer of a transfer: none, the next page, or the list of pages.
unfoldable pub second_pointer : NvmeDevice → ℕ → ℕ → ℕ
second_pointer d blocks addr =
    if leb (blocks * 512) 4096
    then 0
    else if leb (blocks * 512) 8192
    then addr + 4096
    else d.prp_list.phys

-- Without waiting, for a namespace with its own block size.
unfoldable pub submit_io :
    NvmeDevice → NvmeNamespace → ℕ → ℕ → ℕ → Bool → Outcome (Option ℕ × NvmeDevice)
submit_io d ns addr blocks lba write = do
  assert (ltb 0 blocks)
  assert (leb blocks 0x10000)
  let bytes = blocks * ns.block_size
  let ptr1 =
      if leb bytes 4096
      then 0
      else if leb bytes 8192
      then addr + 4096
      else d.prp_list.phys + (addr + 2 ^ 64 - d.buffer.phys) % 2 ^ 64 / 8
  (tail, sq) ←
      submit_checked d.io_sq (io_command write (d.io_sq.tail % 2 ^ 16) ns.id lba blocks addr ptr1)
  done (tail, record d { io_sq = sq })

module _ (ctl : Controller) (fuel : ℕ) where
  unfoldable pub complete_io : NvmeDevice → ℕ → Outcome (Option ℕ × NvmeDevice)
  complete_io d step = do
    ((tail, c_entry, prev), cq) ←
        complete_n fuel (ctl.posted d.writes d.io_cq.dma.phys) d.io_cq step
    let seen = write_reg_idx (record d { io_cq = cq }) cqy_hdbl 1 tail
    if not (c_entry.status / 2 == 0)
        then done (none, seen)
        else done (
          some c_entry.sq_head,
          record seen { stats = record (seen.stats) { completions = seen.stats.completions + 1 } },
        )

  unfoldable pub namespace_io : NvmeDevice → ℕ → ℕ → ℕ → ℕ → Bool → Outcome NvmeDevice
  namespace_io d ns_id blocks lba addr write = do
    assert (ltb 0 blocks)
    assert (leb blocks 0x10000)
    (tail, sq) ← submit d.io_sq (
        io_command write (d.io_sq.tail % 2 ^ 16) ns_id lba blocks addr
          (second_pointer d blocks addr))
    let counted = record d {
      io_sq = sq;
      stats = record (d.stats) { submissions = d.stats.submissions + 1 };
    }
    (head, d') ← complete_io (write_reg_idx counted sqy_tdbl 1 tail) 1
    sq_head ← unwrap head
    done (record d' { io_sq = record (d'.io_sq) { head = sq_head } })

  -- The loop of `read` and `write`.
  unfoldable pub transfer : NvmeDevice → List DmaChunk → ℕ → Bool → Outcome NvmeDevice
  transfer d [] lba write = done d
  transfer d (chunk ∷ rest) lba write =
      let blocks = (chunk.length + 512 - 1) / 512 in
      namespace_io d 1 blocks lba chunk.phys_addr write >>= λ d'.
      transfer d' rest ((lba + blocks) % 2 ^ 64) write

  unfoldable pub write : NvmeDevice → Dma → ℕ → Outcome NvmeDevice
  write d data' lba =
      collect (suc data'.size) (chunks data' (2 * 4096)) >>= λ l. transfer d l lba true

  unfoldable pub read : NvmeDevice → Dma → ℕ → Outcome NvmeDevice
  read d dest lba = collect (suc dest.size) (chunks dest (2 * 4096)) >>= λ l. transfer d l lba false
