-- ===== src/Drivers/Nvme/Device/Batch.antt =====
-- A batch of requests on a queue pair, and its completions.
use mathlib.Core.List.{append_assoc, append-nil}
use Prim.Native.Nat.{bit_or}
use good_os_framework.Base.{
  ℕ, zero, suc, ◌+◌, ◌-◌, ◌*◌, ◌/◌, ◌%◌, ◌^◌, ◌≡◌, ◌≢◌, min, refl, ap, sym, subst, ◌∙◌, Bool, List,
  [], ◌∷◌, ◌++◌, leb, if◌then◌else◌, length, done, arith, ℕ_discrete,
}
use good_os_framework.Drivers.Nvme.Cmd.{NvmeCommand}
use good_os_framework.Drivers.Nvme.Memory.{DmaChunk}
use good_os_framework.Drivers.Nvme.Queues.Submit.{
  IsValid, pending, pending_count, pending-submitted, submit_checked-eq, submit_checked_full,
  submitted, submitted-IsValid, submitted_count, pending_facts,
}
use good_os_framework.Drivers.Nvme.Device.{Write}
use good_os_framework.Drivers.Nvme.Device.Transfer.{io_command}
use good_os_framework.Drivers.Nvme.Device.Pair.{NvmeQueuePair, submit_chunks}

-- The command for a chunk, from the id of the pair and the slot.
abbrev pub command_at : ℕ → ℕ → DmaChunk → ℕ → Bool → NvmeCommand
command_at id tail chunk lba write =
    let blocks = (chunk.length + 512 - 1) / 512 in
    io_command write (bit_or (id * 2 ^ 11 % 2 ^ 16) (tail % 2 ^ 16)) 1 lba blocks chunk.phys_addr
      (if leb (blocks * 512) 4096 then 0 else chunk.phys_addr + 4096)

-- The commands for the first `k` chunks, from the slot `tail` of a ring of `len` on: each goes to the next
-- slot and starts at the block after those of the chunk before it.
abbrev pub commands_for : ℕ → ℕ → ℕ → ℕ → List DmaChunk → ℕ → Bool → List NvmeCommand
commands_for id len zero tail l lba write = []
commands_for id len (suc k) tail [] lba write = []
commands_for id len (suc k) tail (chunk ∷ rest) lba write =
    command_at id tail chunk lba write
    ∷ commands_for id len k ((tail + 1) % len) rest
        ((lba + (chunk.length + 512 - 1) / 512) % 2 ^ 64) write

-- The doorbell is written with each of the `k` slots after `tail`.
abbrev pub rings : ℕ → ℕ → ℕ → ℕ → List Write
rings doorbell len zero tail = []
rings doorbell len (suc k) tail =
    (doorbell, (tail + 1) % len % 2 ^ 32) ∷ rings doorbell len k ((tail + 1) % len)

-- What `submit_chunks` has done when it has pushed `k` requests.
pub record Pushed (p : NvmeQueuePair) (writes : List Write) (k : ℕ) (l : List DmaChunk) (lba : ℕ)
    (write : Bool) (p' : NvmeQueuePair) (writes' : List Write) : Type 0 where
  pub queued :
      pending p'.sub_queue
      ≡ pending p.sub_queue ++ commands_for p.id p.sub_queue.len k p.sub_queue.tail l lba write
  pub rung : writes' ≡ writes ++ rings p.sub_queue.doorbell p.sub_queue.len k p.sub_queue.tail
  pub valid : IsValid p'.sub_queue
  pub same_head : p'.sub_queue.head ≡ p.sub_queue.head

-- The slots that `submit_checked` may still fill.
abbrev pub vacancy : NvmeQueuePair → ℕ
vacancy p = p.sub_queue.len - 1 - pending_count p.sub_queue

abbrev Pushes : NvmeQueuePair → List Write → List DmaChunk → ℕ → Bool → ℕ → Type 0
Pushes p writes l lba write reqs =
    (p' : NvmeQueuePair) × (writes' : List Write) × (submit_chunks p writes l lba write reqs
      ≡ done (reqs + min (length l) (vacancy p), p', writes'))
    × Pushed p writes (min (length l) (vacancy p)) l lba write p' writes'

-- No request.
none_pushed :
    (p : NvmeQueuePair) (writes : List Write) (l : List DmaChunk) (lba : ℕ) (write : Bool)
    (reqs : ℕ)
    → IsValid p.sub_queue
    → min (length l) (vacancy p) ≡ 0
    → submit_chunks p writes l lba write reqs ≡ done (reqs, p, writes)
    → Pushes p writes l lba write reqs
none_pushed p writes l lba write reqs v e q = (
  p,
  writes,
  q
      ∙ ap (λ k. done (k, p, writes)) {x = reqs} {y = reqs + min (length l) (vacancy p)}
          (omega (arith, e)),
  subst (λ k. Pushed p writes k l lba write p writes) {x = 0} {y = min (length l) (vacancy p)}
      (sym e)
      (record {
        queued = sym (append-nil (pending p.sub_queue));
        rung = sym (append-nil writes);
        valid = v;
        same_head = refl;
      }),
)

-- The pair and the trace after one request.
abbrev pushed_one : NvmeQueuePair → NvmeCommand → NvmeQueuePair
pushed_one p c = record p { sub_queue = submitted p.sub_queue c }

abbrev rung_one : NvmeQueuePair → List Write → List Write
rung_one p writes =
    writes ++ (p.sub_queue.doorbell, (p.sub_queue.tail + 1) % p.sub_queue.len % 2 ^ 32) ∷ []

vacancy_less :
    (p : NvmeQueuePair) (c : NvmeCommand)
    → IsValid p.sub_queue
    → pending_count p.sub_queue + 1 ≢ p.sub_queue.len
    → vacancy p ≡ suc (vacancy (pushed_one p c))
vacancy_less p c v ne = omega (
  arith,
  ne,
  (pending_facts p.sub_queue v).0,
  (submitted_count p.sub_queue c v).0 (omega (arith, ne, (pending_facts p.sub_queue v).0)),
)

step_eq :
    (p : NvmeQueuePair) (writes : List Write) (chunk : DmaChunk) (rest : List DmaChunk) (lba : ℕ)
    (write : Bool) (reqs : ℕ)
    → IsValid p.sub_queue
    → pending_count p.sub_queue + 1 ≢ p.sub_queue.len
    → submit_chunks p writes (chunk ∷ rest) lba write reqs
      ≡ submit_chunks
          (pushed_one p (command_at p.id p.sub_queue.tail chunk lba write))
          (rung_one p writes)
          rest
          ((lba + (chunk.length + 512 - 1) / 512) % 2 ^ 64)
          write
          (reqs + 1)
unfolding submit_chunks
step_eq p writes chunk rest lba write reqs v ne =
    rw (submit_checked-eq p.sub_queue (command_at p.id p.sub_queue.tail chunk lba write) v ne) refl

one_more :
    (p : NvmeQueuePair) (writes : List Write) (chunk : DmaChunk) (rest : List DmaChunk) (lba : ℕ)
    (write : Bool) (j k : ℕ) (p' : NvmeQueuePair) (writes' : List Write)
    → IsValid p.sub_queue
    → pending_count p.sub_queue + 1 ≢ p.sub_queue.len
    → suc j ≡ k
    → Pushed
        (pushed_one p (command_at p.id p.sub_queue.tail chunk lba write))
        (rung_one p writes)
        j
        rest
        ((lba + (chunk.length + 512 - 1) / 512) % 2 ^ 64)
        write
        p'
        writes'
    → Pushed p writes k (chunk ∷ rest) lba write p' writes'
one_more p writes chunk rest lba write j k p' writes' v ne e f =
    let c = command_at p.id p.sub_queue.tail chunk lba write in
    let q = submitted p.sub_queue c in
    let cs =
      commands_for p.id q.len j q.tail rest ((lba + (chunk.length + 512 - 1) / 512) % 2 ^ 64)
        write in
    subst (λ n. Pushed p writes n (chunk ∷ rest) lba write p' writes') e
      (record {
        queued =
            f.queued
            ∙ ap (λ l. l ++ cs) (pending-submitted p.sub_queue c v ne)
            ∙ append_assoc (pending p.sub_queue) (c ∷ []) cs;
        rung =
            f.rung
            ∙ append_assoc writes
                ((p.sub_queue.doorbell, (p.sub_queue.tail + 1) % p.sub_queue.len % 2 ^ 32) ∷ [])
                (rings q.doorbell q.len j q.tail);
        valid = f.valid;
        same_head = f.same_head;
      })

-- For a list of chunks, the requests pushed are as many as there are chunks, or as a valid queue has room
-- for when that is less, and the number that is returned counts them. Behind the pending commands stand
-- those for the first chunks in their order, each for the blocks after those of the chunk before it, and
-- the doorbell has been written once for each, with the slot after it.
pub submit_chunks_lem :
    (p : NvmeQueuePair) (writes : List Write) (l : List DmaChunk) (lba : ℕ) (write : Bool)
    (reqs : ℕ)
    → IsValid p.sub_queue
    → (p' : NvmeQueuePair) × (writes' : List Write) × (submit_chunks p writes l lba write reqs
        ≡ done (reqs + min (length l) (vacancy p), p', writes'))
      × Pushed p writes (min (length l) (vacancy p)) l lba write p' writes'
unfolding submit_chunks
submit_chunks_lem p writes [] lba write reqs v =
    none_pushed p writes [] lba write reqs v (omega arith) refl
submit_chunks_lem p writes (chunk ∷ rest) lba write reqs v =
    let c = command_at p.id p.sub_queue.tail chunk lba write in
    elim (ℕ_discrete (pending_count p.sub_queue + 1) p.sub_queue.len) [
      | yes e ↦
          none_pushed p writes (chunk ∷ rest) lba write reqs v (omega arith)
            (rw (submit_checked_full p.sub_queue c v e) refl)
      | no ne ↦
          let (p', writes', q, f) =
            submit_chunks_lem (pushed_one p c) (rung_one p writes) rest
              ((lba + (chunk.length + 512 - 1) / 512) % 2 ^ 64) write (reqs + 1)
              (submitted-IsValid p.sub_queue c v) in
          let less = vacancy_less p c v ne in
          (
            p',
            writes',
            step_eq p writes chunk rest lba write reqs v ne
                ∙ q
                ∙ ap (λ k. done (k, p', writes'))
                    {x = reqs + 1 + min (length rest) (vacancy (pushed_one p c))}
                    {y = reqs + min (length (chunk ∷ rest)) (vacancy p)} (omega (arith, less)),
            one_more p writes chunk rest lba write (min (length rest) (vacancy (pushed_one p c)))
                (min (length (chunk ∷ rest)) (vacancy p)) p' writes' v ne (omega (arith, less)) f,
          )
    ]
