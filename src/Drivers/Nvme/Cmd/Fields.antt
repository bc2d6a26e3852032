-- ===== src/Drivers/Nvme/Cmd/Fields.antt =====
-- The fields that a controller reads from a command, and what each constructor puts there.
use Prim.Native.Nat.{bit_or}
use good_os_framework.Base.{
  ℕ, ◌+◌, ◌*◌, ◌/◌, ◌%◌, ◌^◌, ◌<◌, ◌≡◌, refl, ap, ◌∙◌, Bool, true, false, arith, if◌then◌else◌,
}
use good_os_framework.Base.Bits.{or_shift}
use good_os_framework.Drivers.Nvme.Cmd.{
  NvmeCommand, shl32, create_io_completion_queue, create_io_submission_queue, io_read, io_write,
  get_log_page, write_zeroes, delete_io_submission_queue,
}

-- The starting block address and the number of blocks of a read or a write.
abbrev pub start_lba : NvmeCommand → ℕ
start_lba c = c.cdw10 + c.cdw11 * 2 ^ 32

abbrev pub block_count : NvmeCommand → ℕ
block_count c = c.cdw12 % 2 ^ 16 + 1

-- The identifier and the size (less one) of a queue that is created, and its completion queue.
abbrev pub queue_id : NvmeCommand → ℕ
queue_id c = c.cdw10 % 2 ^ 16

abbrev pub queue_size : NvmeCommand → ℕ
queue_size c = c.cdw10 / 2 ^ 16

abbrev pub completion_queue_id : NvmeCommand → ℕ
completion_queue_id c = c.cdw11 / 2 ^ 16

-- A 16-bit value put above a 16-bit value.
pub or_halves : (hi lo : ℕ) → hi < 2 ^ 16 → lo < 2 ^ 16 → bit_or (shl32 hi 16) lo ≡ hi * 2 ^ 16 + lo
or_halves hi lo p q =
    ap (λ t. bit_or t lo) {x = shl32 hi 16} {y = hi * 2 ^ 16} (omega arith) ∙ or_shift 16 hi lo q

-- A read and a write of `blocks_1 + 1` blocks from `lba` differ in the opcode alone, and the
-- controller reads the block address, the number of blocks, the namespace and both pointers back.
pub io_fields :
    (c_id ns_id lba blocks_1 ptr0 ptr1 : ℕ)
    → lba < 2 ^ 64
    → blocks_1 < 2 ^ 16
    → let r = io_read c_id ns_id lba blocks_1 ptr0 ptr1 in
      (start_lba r ≡ lba)
      × (block_count r ≡ blocks_1 + 1)
      × (r.ns_id ≡ ns_id)
      × (r.d_ptr ≡ (ptr0, ptr1))
      × (io_write c_id ns_id lba blocks_1 ptr0 ptr1 ≡ record r { opcode = 1 })
unfolding io_read io_write
io_fields c_id ns_id lba blocks_1 ptr0 ptr1 p q = (omega arith, omega arith, refl, refl, refl)

-- The commands that create a queue pair carry the queue's identifier and size, the address of its
-- memory, and the flag of contiguous memory; that of the submission queue names its completion queue.
pub create_fields :
    (c_id q_id ptr size cq_id : ℕ)
    → q_id < 2 ^ 16
    → size < 2 ^ 16
    → cq_id < 2 ^ 16
    → let c = create_io_completion_queue c_id q_id ptr size in
      let s = create_io_submission_queue c_id q_id ptr size cq_id in
      (queue_id c ≡ q_id)
      × (queue_size c ≡ size)
      × (c.cdw11 % 2 ≡ 1)
      × (queue_id s ≡ q_id)
      × (queue_size s ≡ size)
      × (completion_queue_id s ≡ cq_id)
      × (s.cdw11 % 2 ≡ 1)
      × (c.d_ptr ≡ (ptr, 0))
      × (s.d_ptr ≡ (ptr, 0))
unfolding create_io_completion_queue create_io_submission_queue
create_fields c_id q_id ptr size cq_id p q r =
    let w = or_halves size q_id q p in
    let v = or_halves cq_id 1 r (omega arith) in
    (
      omega (arith, w),
      omega (arith, w),
      refl,
      omega (arith, w),
      omega (arith, w),
      omega (arith, v),
      omega (arith, v),
      refl,
      refl,
    )

-- `get_log_page` splits the number of dwords over two fields, and its opcode is the one by which a
-- submission queue is deleted.
pub get_log_page_fields :
    (c_id numd ptr0 ptr1 lid lpid : ℕ)
    → numd < 2 ^ 32
    → lid < 2 ^ 8
    → lpid < 2 ^ 16
    → let g = get_log_page c_id numd ptr0 ptr1 lid lpid in
      (g.cdw10 / 2 ^ 16 + g.cdw11 % 2 ^ 16 * 2 ^ 16 ≡ numd)
      × (g.cdw10 % 2 ^ 16 ≡ lid)
      × (g.cdw11 / 2 ^ 16 ≡ lpid)
      × (g.opcode ≡ (delete_io_submission_queue c_id lid).opcode)
unfolding get_log_page delete_io_submission_queue
get_log_page_fields c_id numd ptr0 ptr1 lid lpid p q r =
    let w =
      ap (λ t. bit_or t lid) {x = shl32 numd 16} {y = numd % 2 ^ 16 * 2 ^ 16} (omega arith)
      ∙ or_shift 16 (numd % 2 ^ 16) lid (omega arith) in
    let v = or_halves lpid (numd / 2 ^ 16) r (omega arith) in
    (omega (arith, w, v), omega (arith, w), omega (arith, v), refl)

-- The controller reads the block address, the number of blocks and the deallocate bit of a command
-- `write_zeroes` back.
pub write_zeroes_fields :
    (c_id ns_id slba nlb : ℕ) (deac : Bool)
    → slba < 2 ^ 64
    → nlb < 2 ^ 16
    → let w = write_zeroes c_id ns_id slba nlb deac in
      (start_lba w ≡ slba)
      × (block_count w ≡ nlb + 1)
      × (w.cdw12 / 2 ^ 25 % 2 ≡ (if deac then 1 else 0))
unfolding write_zeroes
write_zeroes_fields c_id ns_id slba nlb true p q = (
  omega arith,
  omega (arith, or_shift 25 1 nlb (omega arith)),
  omega (arith, or_shift 25 1 nlb (omega arith)),
)
write_zeroes_fields c_id ns_id slba nlb false p q = (
  omega arith,
  omega (arith, or_shift 25 0 nlb (omega arith)),
  omega (arith, or_shift 25 0 nlb (omega arith)),
)
