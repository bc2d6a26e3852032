-- ===== src/Drivers/Nvme/Cmd.antt =====
-- src/drivers/nvme/cmd.rs: the 64 bytes of a submission queue entry. A conversion `as u32` is a remainder.
pub mod Fields
mod Tests
use Prim.Native.Nat.{bit_or}
use good_os_framework.Base.{ℕ, ◌*◌, ◌/◌, ◌%◌, ◌^◌, Bool, if◌then◌else◌}

pub record NvmeCommand : Type 0 where
  pub opcode : ℕ
  pub flags : ℕ
  pub c_id : ℕ
  pub ns_id : ℕ
  pub rsvd : ℕ
  pub md_ptr : ℕ
  pub d_ptr : ℕ × ℕ
  pub cdw10 : ℕ
  pub cdw11 : ℕ
  pub cdw12 : ℕ
  pub cdw13 : ℕ
  pub cdw14 : ℕ
  pub cdw15 : ℕ

-- `x as u32` and `x << k` on a `u32`.
abbrev pub as_u32 : ℕ → ℕ
as_u32 x = x % 2 ^ 32

abbrev pub shl32 : ℕ → ℕ → ℕ
shl32 x k = x * 2 ^ k % 2 ^ 32

-- `Default::default()`
abbrev pub zeroed : NvmeCommand
zeroed = record {
  opcode = 0;
  flags = 0;
  c_id = 0;
  ns_id = 0;
  rsvd = 0;
  md_ptr = 0;
  d_ptr = (0, 0);
  cdw10 = 0;
  cdw11 = 0;
  cdw12 = 0;
  cdw13 = 0;
  cdw14 = 0;
  cdw15 = 0;
}

unfoldable pub create_io_completion_queue : ℕ → ℕ → ℕ → ℕ → NvmeCommand
create_io_completion_queue c_id qid ptr size = record zeroed {
  opcode = 5;
  c_id = c_id;
  d_ptr = (ptr, 0);
  cdw10 = bit_or (shl32 size 16) qid;
  cdw11 = 1;
}

unfoldable pub create_io_submission_queue : ℕ → ℕ → ℕ → ℕ → ℕ → NvmeCommand
create_io_submission_queue c_id q_id ptr size cq_id = record zeroed {
  opcode = 1;
  c_id = c_id;
  d_ptr = (ptr, 0);
  cdw10 = bit_or (shl32 size 16) q_id;
  cdw11 = bit_or (shl32 cq_id 16) 1;
}

unfoldable pub delete_io_submission_queue : ℕ → ℕ → NvmeCommand
delete_io_submission_queue c_id q_id = record zeroed { opcode = 0; c_id = c_id; cdw10 = q_id }

unfoldable pub delete_io_completion_queue : ℕ → ℕ → NvmeCommand
delete_io_completion_queue c_id q_id = record zeroed { opcode = 4; c_id = c_id; cdw10 = q_id }

unfoldable pub identify_namespace : ℕ → ℕ → ℕ → NvmeCommand
identify_namespace c_id ptr ns_id = record zeroed {
  opcode = 6;
  c_id = c_id;
  ns_id = ns_id;
  d_ptr = (ptr, 0);
}

unfoldable pub identify_controller : ℕ → ℕ → NvmeCommand
identify_controller c_id ptr = record zeroed {
  opcode = 6;
  c_id = c_id;
  d_ptr = (ptr, 0);
  cdw10 = 1;
}

unfoldable pub identify_namespace_list : ℕ → ℕ → ℕ → NvmeCommand
identify_namespace_list c_id ptr base = record zeroed {
  opcode = 6;
  c_id = c_id;
  ns_id = base;
  d_ptr = (ptr, 0);
  cdw10 = 2;
}

-- The command identifier is not used.
unfoldable pub get_features : ℕ → ℕ → ℕ → NvmeCommand
get_features c_id ptr fid = record zeroed { opcode = 0xA; d_ptr = (ptr, 0); cdw10 = fid }

unfoldable pub io_read : ℕ → ℕ → ℕ → ℕ → ℕ → ℕ → NvmeCommand
io_read c_id ns_id lba blocks_1 ptr0 ptr1 = record zeroed {
  opcode = 2;
  c_id = c_id;
  ns_id = ns_id;
  d_ptr = (ptr0, ptr1);
  cdw10 = as_u32 lba;
  cdw11 = as_u32 (lba / 2 ^ 32);
  cdw12 = blocks_1;
}

unfoldable pub io_write : ℕ → ℕ → ℕ → ℕ → ℕ → ℕ → NvmeCommand
io_write c_id ns_id lba blocks_1 ptr0 ptr1 = record zeroed {
  opcode = 1;
  c_id = c_id;
  ns_id = ns_id;
  d_ptr = (ptr0, ptr1);
  cdw10 = as_u32 lba;
  cdw11 = as_u32 (lba / 2 ^ 32);
  cdw12 = blocks_1;
}

unfoldable pub format_nvm : ℕ → ℕ → NvmeCommand
format_nvm c_id ns_id = record zeroed {
  opcode = 0x80;
  c_id = c_id;
  ns_id = ns_id;
  cdw10 = shl32 1 9;
}

unfoldable pub async_event_req : ℕ → NvmeCommand
async_event_req c_id = record zeroed { opcode = 0xC; c_id = c_id }

-- The opcode stays the default.
unfoldable pub get_log_page : ℕ → ℕ → ℕ → ℕ → ℕ → ℕ → NvmeCommand
get_log_page c_id numd ptr0 ptr1 lid lpid = record zeroed {
  c_id = c_id;
  d_ptr = (ptr0, ptr1);
  cdw10 = bit_or (shl32 numd 16) lid;
  cdw11 = bit_or (shl32 lpid 16) (numd / 2 ^ 16);
}

unfoldable pub write_zeroes : ℕ → ℕ → ℕ → ℕ → Bool → NvmeCommand
write_zeroes c_id ns_id slba nlb deac = record zeroed {
  opcode = 8;
  c_id = c_id;
  ns_id = ns_id;
  cdw10 = as_u32 slba;
  cdw11 = as_u32 (slba / 2 ^ 32);
  cdw12 = bit_or (shl32 (if deac then 1 else 0) 25) nlb;
}
