-- ===== src/Drivers/Nvme/Device/Tests.antt =====
-- A device whose two queue pairs have four slots for submissions and two for completions, and a
-- controller that answers at once.
use good_os_framework.Base.{
  ℕ, ◌+◌, ◌*◌, ◌/◌, ◌%◌, ◌^◌, ◌<◌, ◌≤◌, ◌≡◌, ◌≢◌, refl, min, Bool, true, false, none, some, List,
  [], ◌∷◌, ◌++◌, ◌∙◌, ==_ne, ◌==◌, leb, length, replicate, if◌then◌else◌, done, panics, arith,
}
use good_os_framework.Drivers.Nvme.Cmd.{identify_controller}
use good_os_framework.Drivers.Nvme.Memory.{DmaChunk}
use good_os_framework.Drivers.Nvme.Queues.Samples.{
  page, ring, ring-IsValid, fresh_ring, hist, memory, posted, memory-Synced,
}
use good_os_framework.Drivers.Nvme.Device.{Write, Controller, NvmeDevice, NvmeNamespace}
use good_os_framework.Drivers.Nvme.Device.Admin.{submit_and_complete_admin, identify_namespace}
use good_os_framework.Drivers.Nvme.Device.Serve.{
  submit_and_complete_admin_lem, admin_command, Served,
}
use good_os_framework.Drivers.Nvme.Device.Identify.{identify_namespace_lem, Identified}
use good_os_framework.Drivers.Nvme.Device.Transfer.{namespace_io}
use good_os_framework.Drivers.Nvme.Device.Move.{namespace_io_lem, chunk_command, Moved}
use good_os_framework.Drivers.Nvme.Device.Pair.{NvmeQueuePair, submit_chunks}
use good_os_framework.Drivers.Nvme.Device.Batch.{submit_chunks_lem, Pushed}
use good_os_framework.Drivers.Nvme.Device.Init.{entry_sizes, configure}
use good_os_framework.Drivers.Nvme.Device.Configured.{configure_lem, configured, KeepsControl}

-- Ready as long as it has not been written to once only.
abbrev controller : Controller
controller = record {
  reg = λ writes a t. if leb (length writes) 1 then 0 else 1;
  posted = λ writes phys. memory;
  identified = λ writes. record {
    nsze = 8;
    ncap = 8;
    flbas = 2;
    lba_format_support = replicate 16 (9 * 2 ^ 16);
  };
  listed = λ writes. 1 ∷ 0 ∷ [];
}

abbrev device : NvmeDevice
device = record {
  addr = 0x10000;
  dstrd = 0;
  len = 0x4000;
  admin_sq = ring;
  admin_cq = fresh_ring;
  io_sq = ring;
  io_cq = fresh_ring;
  buffer = page;
  prp_list = page;
  prps = [];
  namespaces = [];
  stats = record { completions = 0; submissions = 0 };
  q_id = 1;
  writes = [];
}

abbrev wide_device : NvmeDevice
wide_device = record device { dstrd = 15 }

first_answer : (t : ℕ) → t < 0 → posted t ≤ 0
first_answer t h = absurd (omega arith)

submit_and_complete_admin_lem_example :
    (d' : NvmeDevice) × (submit_and_complete_admin controller 2 device identify_controller
      ≡ done (if (hist 0).status / 2 == 0 then some (hist 0) else none, d'))
    × Served controller device (admin_command device identify_controller) hist 0 (posted 0) d'
submit_and_complete_admin_lem_example =
    submit_and_complete_admin_lem controller device identify_controller hist posted 0 0 2
      ring-IsValid memory-Synced first_answer (omega arith) (omega arith)

identify_namespace_lem_example :
    (ns : NvmeNamespace) × (d' : NvmeDevice) × (identify_namespace controller 2 device 1
      ≡ done ((ns, ns.blocks * ns.block_size % 2 ^ 64), d'))
    × Identified device d' (controller.identified d'.writes) 1 ns
identify_namespace_lem_example =
    identify_namespace_lem controller device 1 hist posted 0 0 2 ring-IsValid (λ writes. refl)
      memory-Synced first_answer (omega arith) (omega arith)

namespace_io_lem_example :
    ((hist 0).status / 2 ≡ 0
      → (d' : NvmeDevice) × (namespace_io controller 2 device 1 16 100 8192 true ≡ done d')
        × Moved device (chunk_command device 1 16 100 8192 true) hist 0 (posted 0) d')
    × ((hist 0).status / 2 ≢ 0 → namespace_io controller 2 device 1 16 100 8192 true ≡ panics)
namespace_io_lem_example =
    namespace_io_lem controller device 1 16 100 8192 true hist posted 0 0 2 (omega arith)
      (omega arith) ring-IsValid memory-Synced first_answer (omega arith) (omega arith)

abbrev pair : NvmeQueuePair
pair = record { id = 2; sub_queue = ring; comp_queue = fresh_ring }

abbrev three_chunks : List DmaChunk
three_chunks =
    record { phys_addr = 8192; length = 8192 }
    ∷ record { phys_addr = 16384; length = 8192 }
    ∷ record { phys_addr = 24576; length = 100 }
    ∷ []

submit_chunks_lem_example :
    (p' : NvmeQueuePair) × (writes' : List Write) × (submit_chunks pair [] three_chunks 7 false 0
      ≡ done (0 + min 3 2, p', writes'))
    × Pushed pair [] (min 3 2) three_chunks 7 false p' writes'
submit_chunks_lem_example = submit_chunks_lem pair [] three_chunks 7 false 0 ring-IsValid

before_first : (b : ℕ → Bool) (i : ℕ) → i < 0 → b i ≡ false
before_first b i h = absurd (omega arith)

-- What was last written to an address, at first 0.
abbrev last_written : List Write → ℕ → ℕ → ℕ
last_written [] at value = value
last_written ((a, v) ∷ ws) at value = last_written ws at (if a == at then v else value)

last_snoc :
    (ws : List Write) (at x v value : ℕ)
    → last_written (ws ++ (x, v) ∷ []) at value ≡ (if x == at then v else last_written ws at value)
last_snoc [] at x v value = refl
last_snoc ((a, w) ∷ ws) at x v value = last_snoc ws at x v (if a == at then w else value)

-- CC keeps its value, and the controller is ready when it is enabled.
abbrev obedient : Controller
obedient = record controller {
  reg = λ writes a t.
      if a == 0x1001c then last_written writes 0x10014 0 % 2 else last_written writes a 0;
}

obedient-KeepsControl : KeepsControl obedient 0x10000
obedient-KeepsControl = record {
  written = λ ws value t. last_snoc ws 0x10014 0x10014 value 0;
  other = λ ws at value t ne. last_snoc ws 0x10014 at value 0 ∙ rw (==_ne at 0x10014 ne) refl;
}

configure_lem_example : configure obedient 1 device ≡ done (configured device 0)
unfolding entry_sizes
configure_lem_example =
    configure_lem obedient device 0 0 1 (omega arith, omega arith) obedient-KeepsControl
      (omega arith) (before_first _, refl) (before_first _, refl) (omega arith) (omega arith)
