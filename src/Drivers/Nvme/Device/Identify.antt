-- ===== src/Drivers/Nvme/Device/Identify.antt =====
-- What the driver keeps of an identified namespace.
use good_os_framework.Base.{
  ℕ, ◌*◌, ◌/◌, ◌%◌, ◌^◌, ◌≤◌, ◌<◌, ◌≡◌, ◌≢◌, refl, ap, ◌∙◌, ◌⊎◌, inl, inr, some, List, [], ◌∷◌,
  ==_refl, length, get_or, get_elem?-eq-get_or, done, arith, dec_lt,
}
use good_os_framework.Drivers.Nvme.Cmd
use good_os_framework.Drivers.Nvme.Cmd.{NvmeCommand}
use good_os_framework.Drivers.Nvme.Queues.{NvmeCompletion}
use good_os_framework.Drivers.Nvme.Queues.Submit.{IsValid}
use good_os_framework.Drivers.Nvme.Queues.Complete.{Synced}
use good_os_framework.Drivers.Nvme.Queues.Poll.{at_poll}
use good_os_framework.Drivers.Nvme.Device.{
  Controller, NvmeDevice, NvmeNamespace, IdentifyNamespaceData,
}
use good_os_framework.Drivers.Nvme.Device.Admin.{identify_namespace, lookup, insert, format_size}
use good_os_framework.Drivers.Nvme.Device.Serve.{answers, submit_and_complete_admin_lem}

lookup-insert_self :
    (m : List (ℕ × NvmeNamespace)) (id : ℕ) (ns : NvmeNamespace)
    → lookup (insert m id ns) id ≡ some ns
unfolding lookup insert
lookup-insert_self [] id ns = rw (==_refl id) refl
lookup-insert_self ((k, old) ∷ m) id ns = ground (arith, lookup-insert_self m id ns)

lookup-insert_ne :
    (m : List (ℕ × NvmeNamespace)) (id i : ℕ) (ns : NvmeNamespace)
    → i ≢ id
    → lookup (insert m id ns) i ≡ lookup m i
unfolding lookup insert
lookup-insert_ne [] id i ns ne = ground arith
lookup-insert_ne ((k, old) ∷ m) id i ns ne = ground (arith, lookup-insert_ne m id i ns ne)

-- A block size is 0, for a format that the driver does not accept, or a power of two from 512 on.
pub IsBlockSize : ℕ → Type 0
IsBlockSize n = (n ≡ 0) ⊎ ((k : ℕ) × (9 ≤ k) × (k < 32) × (n ≡ 2 ^ k))

format_size-IsBlockSize : (x : ℕ) → IsBlockSize (format_size x)
unfolding format_size IsBlockSize
format_size-IsBlockSize x = elim (dec_lt x 9) [
  | yes p ↦ inl (ground arith)
  | no p ↦ elim (dec_lt x 32) [
    | yes q ↦ inr (x, omega arith, q, ground arith)
    | no q ↦ inl (ground arith)
  ]
]

-- What the driver keeps of the answer.
pub record Identified (d d' : NvmeDevice) (answer : IdentifyNamespaceData) (id : ℕ)
    (ns : NvmeNamespace) : Type 0 where
  pub ns_id : ns.id ≡ id
  pub blocks : ns.blocks ≡ answer.ncap
  pub block_size : IsBlockSize ns.block_size
  pub found : lookup d'.namespaces id ≡ some ns
  pub others : (i : ℕ) → i ≢ id → lookup d'.namespaces i ≡ lookup d.namespaces i

-- If the answer has its 16 formats, and the controller posts its next completion at the poll `wait`
-- and not before, whatever its status, then with more polls than that the namespace is
-- returned with its capacity and kept under its id, the other namespaces stay, and its block
-- size is 0 or a power of two from 512 on.
pub identify_namespace_lem :
    (ctl : Controller) (d : NvmeDevice) (id : ℕ) (hist : ℕ → NvmeCompletion) (posted : ℕ → ℕ)
    (n wait fuel : ℕ)
    → IsValid d.admin_sq
    → ((writes : List (ℕ × ℕ)) → length ((ctl.identified writes).lba_format_support) ≡ 16)
    → ((t : ℕ) → Synced (at_poll d.admin_cq (answers ctl d) t) hist n (posted t))
    → ((t : ℕ) → t < wait → posted t ≤ n)
    → n < posted wait
    → wait < fuel
    → (ns : NvmeNamespace) × (d' : NvmeDevice) × (identify_namespace ctl fuel d id
        ≡ done ((ns, ns.blocks * ns.block_size % 2 ^ 64), d'))
      × Identified d d' (ctl.identified d'.writes) id ns
unfolding identify_namespace
identify_namespace_lem ctl d id hist posted n wait fuel v formats s idle found enough =
    let (d1, p, served) =
      submit_and_complete_admin_lem ctl d (λ c_id ptr. Cmd.identify_namespace c_id ptr id) hist
        posted n wait fuel v s idle found enough in
    let data' = ctl.identified d1.writes in
    let at = data'.flbas % 2 ^ 4 in
    let ns : NvmeNamespace = record {
      id = id;
      blocks = data'.ncap;
      block_size = format_size (get_or data'.lba_format_support at 0 / 2 ^ 16 % 2 ^ 8);
    } in
    (
      ns,
      record d1 { namespaces = insert d1.namespaces id ns },
      rw (p, get_elem?-eq-get_or data'.lba_format_support at 0 (omega (arith, formats d1.writes)))
          refl,
      record {
        ns_id = refl;
        blocks = refl;
        block_size =
            format_size-IsBlockSize (get_or data'.lba_format_support at 0 / 2 ^ 16 % 2 ^ 8);
        found = lookup-insert_self d1.namespaces id ns;
        others = λ i ne.
            lookup-insert_ne d1.namespaces id i ns ne ∙ ap (λ m. lookup m i) served.same_namespaces;
      },
    )
