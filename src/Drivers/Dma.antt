-- ===== src/Drivers/Dma.antt =====
-- src/drivers/mod.rs: memory for device drivers, from the frame allocator.
use good_os_framework.Base.{ℕ, ◌*◌, ◌/◌, Outcome, ◌>>=◌, done, unwrap}
use good_os_framework.Data.Bitmap.{BitField}
use good_os_framework.Memory.Frame.{BitmapFrameAllocator, allocate_frames, deallocate_frame}
use good_os_framework.Memory.Address.{convert_physical_to_virtual, convert_virtual_to_physical}

module _ ⦃B : BitField⦄ where
  -- The physical and the virtual address of `cnt` frames.
  unfoldable pub alloc_for_dma :
      ℕ → BitmapFrameAllocator → ℕ → Outcome ((ℕ × ℕ) × BitmapFrameAllocator)
  alloc_for_dma offset a cnt = do
    (frames, a') ← allocate_frames a cnt
    phys ← unwrap frames
    done ((phys, convert_physical_to_virtual offset phys), a')

  -- Gives back one frame, that of the address, whatever the count is.
  unfoldable pub dealloc_for_dma : ℕ → BitmapFrameAllocator → ℕ → ℕ → Outcome BitmapFrameAllocator
  dealloc_for_dma offset a virt_addr cnt =
      deallocate_frame a (convert_virtual_to_physical offset virt_addr / 4096 * 4096)
